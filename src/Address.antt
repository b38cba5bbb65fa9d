-- ===== src/Address.antt =====
-- parse_ss_address and encode_ss_address of src/ShadowsocksAead.cpp, over TargetAddress of
-- include/ovpn2ss/InstanceConfig.h: the address in front of each Shadowsocks payload.
pub mod RoundTrip
pub mod SameTarget
use ovpn2ss.Common.{
  ℕ, ◌+◌, ◌-◌, ◌*◌, ◌/◌, ◌%◌, ◌≡◌, Bool, true, false, Option, none, some, Bytes, [], ◌∷◌, ◌++◌, ltb,
  ◌==◌, if◌then◌else◌, length, take, drop, All, IsByte, is_empty,
}
use ovpn2ss.Common.Outcome.{
  Result, ok, err, ◌>>=◌, domain_too_long, bad_ipv4, bad_ipv6, bad_address_type,
}
use ovpn2ss.Aead.Session.{be16, read_be16, or_throw}

-- `other` is a value of the enum's type that none of its enumerators names.
pub data AddressType : Type 0 where
  ipv4 domain ipv6 : AddressType
  other : ℕ → AddressType

abbrev pub to_type : ℕ → AddressType
to_type b = if b == 1 then ipv4 else if b == 3 then domain else if b == 4 then ipv6 else other b

abbrev pub type_byte : AddressType → ℕ
type_byte ipv4 = 1
type_byte domain = 3
type_byte ipv6 = 4
type_byte (other b) = b

-- `type == AddressType::Domain`.
abbrev pub is_domain : AddressType → Bool
is_domain domain = true
is_domain _ = false

pub record TargetAddress : Type 0 where
  pub type : AddressType
  pub host : Bytes
  pub port : ℕ

-- asio::ip::make_address_v4 and _v6 with the bytes of the result; `none` sets the error code.
pub record Asio : Type 0 where
  pub make_address_v4 : Bytes → Option Bytes
  pub make_address_v6 : Bytes → Option Bytes

-- std::to_string of an unsigned char.
abbrev pub to_string : ℕ → Bytes
to_string b =
    if ltb b 10
    then (b'0' + b) ∷ []
    else if ltb b 100
    then (b'0' + b / 10) ∷ (b'0' + b % 10) ∷ []
    else (b'0' + b / 100) ∷ (b'0' + b / 10 % 10) ∷ (b'0' + b % 10) ∷ []

-- `%02x` of an unsigned char.
abbrev pub hex_digit : ℕ → ℕ
hex_digit d = if ltb d 10 then b'0' + d else b'a' + (d - 10)

abbrev pub hex2 : ℕ → Bytes
hex2 b = hex_digit (b / 16) ∷ hex_digit (b % 16) ∷ []

-- The text of the first four bytes.
abbrev pub ipv4_text : Bytes → Bytes
ipv4_text (a ∷ b ∷ c ∷ d ∷ _) =
    to_string a ++ (b'.' ∷ (to_string b ++ (b'.' ∷ (to_string c ++ (b'.' ∷ to_string d)))))
ipv4_text _ = []

-- Groups of two bytes with colons between them.
abbrev pub ipv6_text : Bytes → Bytes
ipv6_text (a ∷ b ∷ []) = hex2 a ++ hex2 b
ipv6_text (a ∷ b ∷ c ∷ rest) = hex2 a ++ (hex2 b ++ (b':' ∷ ipv6_text (c ∷ rest)))
ipv6_text _ = []

-- The end of `parse_ss_address`, behind the host.
unfoldable pub parse_port : AddressType → Bytes → Bytes → Option TargetAddress × Bytes
parse_port type host bytes =
    if ltb (length bytes) 2
    then (none, bytes)
    else (some (record { type = type; host = host; port = read_be16 bytes }), drop 2 bytes)

-- `len + 2` is an int, so it does not wrap.
unfoldable pub parse_domain : Bytes → Option TargetAddress × Bytes
unfolding parse_port
parse_domain [] = (none, [])
parse_domain (len ∷ bytes) =
    if ltb (length bytes) (len + 2)
    then (none, bytes)
    else parse_port domain (take len bytes) (drop len bytes)

-- The branches on the type; snprintf writes 39 characters at most into the buffer of 40.
unfoldable pub parse_host : AddressType → Bytes → Option TargetAddress × Bytes
unfolding parse_port parse_domain
parse_host ipv4 bytes =
    if ltb (length bytes) 6
    then (none, bytes)
    else parse_port ipv4 (ipv4_text (take 4 bytes)) (drop 4 bytes)
parse_host domain bytes = parse_domain bytes
parse_host ipv6 bytes =
    if ltb (length bytes) 18
    then (none, bytes)
    else parse_port ipv6 (take 39 (ipv6_text (take 16 bytes))) (drop 16 bytes)
parse_host (other b) bytes = (none, bytes)

-- The span is a reference: the answer is the target with the bytes that are left.
unfoldable pub parse_ss_address : Bytes → Option TargetAddress × Bytes
unfolding parse_host
parse_ss_address [] = (none, [])
parse_ss_address (b ∷ bytes) = parse_host (to_type b) bytes

module _ (a : Asio) where
  unfoldable pub encode_host : AddressType → Bytes → Result Bytes
  encode_host domain host =
      if ltb 255 (length host) then err domain_too_long else ok (length host % 256 ∷ host)
  encode_host ipv4 host = or_throw (a.make_address_v4 host) bad_ipv4
  encode_host ipv6 host = or_throw (a.make_address_v6 host) bad_ipv6
  encode_host (other b) host = err bad_address_type

  unfoldable pub encode_ss_address : TargetAddress → Result Bytes
  unfolding encode_host
  encode_ss_address t = do
    host ← encode_host t.type t.host
    ok (type_byte t.type ∷ (host ++ be16 t.port))
