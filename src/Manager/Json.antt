-- ===== src/Manager/Json.antt =====
-- The calls of nlohmann::json and of the file system that load_json_config makes, as a parameter.
use ovpn2ss.Common.{Bool, Option, Bytes, List}
use ovpn2ss.Common.Int.{ℤ}

pub record Json : Type 1 where
  pub Value : Type 0
  -- The contents of a file that can be opened.
  pub read_file : Bytes → Option Bytes
  pub is_regular_file : Bytes → Bool
  -- `none` is a parse error.
  pub parse : Bytes → Option Value
  pub contains : Value → Bytes → Bool
  pub at : Value → Bytes → Value
  pub is_array : Value → Bool
  pub is_object : Value → Bool
  pub is_string : Value → Bool
  pub is_number_integer : Value → Bool
  pub elements : Value → List Value
  -- get<std::string>() of a string.
  pub get_string : Value → Bytes
  -- get<int>(); `none` is a type error.
  pub get_int : Value → Option ℤ
