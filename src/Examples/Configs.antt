-- ===== src/Examples/Configs.antt =====
-- A configuration file that load_json_config of src/MultiInstanceManager.cpp accepts, and one that it
-- refuses.
use ovpn2ss.Common.{
  ℕ, ◌≡◌, refl, Bool, true, false, ◌||◌, none, some, Bytes, List, [], ◌∷◌, if◌then◌else◌, codes,
  same,
}
use ovpn2ss.Common.Int.{pos}
use ovpn2ss.Common.Outcome.{ok, err, duplicate_port}
use ovpn2ss.Manager.Json.{Json}
use ovpn2ss.Manager.Config.{ManagerConfig, only_method, load_json_config}
use ovpn2ss.Manager.Valid.{IsValid, load_json_config-IsValid}

-- A document with a list of equal entries.
data Value : Type 0 where
  document entries entry : Value
  text : Bytes → Value
  number : ℕ → Value

abbrev in_entry : Bytes → Bool
in_entry key =
    same key (codes "name")
    || same key (codes "ovpn")
    || same key (codes "tcp_port")
    || same key (codes "password")

-- Every text in an entry is its own key.
abbrev look_up : Value → Bytes → Value
look_up document key = entries
look_up entry key = if same key (codes "tcp_port") then number 8388 else text key
look_up v key = v

abbrev toy_json : List Value → Json
toy_json all = record {
  Value = Value;
  read_file = λ path. some [];
  is_regular_file = λ path. true;
  parse = λ bytes. some document;
  contains = λ v key. elim v [ document ↦ true | entry ↦ in_entry key | _ ↦ false ];
  at = look_up;
  is_array = λ v. elim v [ entries ↦ true | _ ↦ false ];
  is_object = λ v. elim v [ entry ↦ true | document ↦ true | _ ↦ false ];
  is_string = λ v. elim v [ text s ↦ true | _ ↦ false ];
  is_number_integer = λ v. elim v [ number i ↦ true | _ ↦ false ];
  elements = λ v. all;
  get_string = λ v. elim v [ text s ↦ s | _ ↦ [] ];
  get_int = λ v. elim v [ number i ↦ some (pos i) | _ ↦ none ];
}

abbrev loaded : ManagerConfig
loaded = record {
  json_path = codes "a.json";
  instances =
      record {
        name = codes "name";
        ovpn_path = codes "ovpn";
        shadowsocks = record {
          listen_host = codes "127.0.0.1";
          tcp_port = 8388;
          udp_port = 8388;
          method = only_method;
          password = codes "password";
        };
        udp_enabled = true;
        vpn_username = [];
        vpn_password = [];
      }
      ∷ [];
}

one_loads : load_json_config (toy_json (entry ∷ [])) (codes "a.json") ≡ ok loaded
unfolding load_json_config same
one_loads = refl

-- The second entry has the port of the first.
two_refused : load_json_config (toy_json (entry ∷ entry ∷ [])) (codes "a.json") ≡ err duplicate_port
unfolding load_json_config same
two_refused = refl

load_json_config-IsValid_example : IsValid (toy_json (entry ∷ [])) loaded
load_json_config-IsValid_example =
    load_json_config-IsValid (toy_json (entry ∷ [])) (codes "a.json") loaded one_loads
