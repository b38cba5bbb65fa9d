-- ===== src/Examples/Addresses.antt =====
-- Addresses of src/ShadowsocksAead.cpp, written and read.
use ovpn2ss.Common.{◌≡◌, refl, none, some, Bytes, ◌++◌, [], ◌∷◌, codes, replicate, arith}
use ovpn2ss.Common.Outcome.{ok}
use ovpn2ss.Address.{ipv4, domain, ipv6, TargetAddress, parse_ss_address, encode_ss_address}
use ovpn2ss.Address.RoundTrip.{
  IsTarget, encode_ss_address-parse_ss_address, parse_ss_address-encode_ss_address,
}
use ovpn2ss.Examples.ToyAsio.{toy_asio, toy_asio-IsAsio}

-- An address of each type, with one more byte behind it.
abbrev pub v4_bytes : Bytes
v4_bytes = 1 ∷ 127 ∷ 0 ∷ 0 ∷ 1 ∷ 1 ∷ 187 ∷ 99 ∷ []

abbrev pub v4_target : TargetAddress
v4_target = record { type = ipv4; host = codes "127.0.0.1"; port = 443 }

abbrev name_bytes : Bytes
name_bytes = 3 ∷ 3 ∷ (codes "a.b" ++ 0 ∷ 80 ∷ 99 ∷ [])

abbrev v6_bytes : Bytes
v6_bytes = 4 ∷ 32 ∷ 1 ∷ (replicate 13 0 ++ 1 ∷ 0 ∷ 80 ∷ [])

v4_parsed : parse_ss_address v4_bytes ≡ (some v4_target, 99 ∷ [])
unfolding parse_ss_address
v4_parsed = refl

name_parsed :
    parse_ss_address name_bytes
    ≡ (some (record { type = domain; host = codes "a.b"; port = 80 }), 99 ∷ [])
unfolding parse_ss_address
name_parsed = refl

v6_parsed : parse_ss_address v6_bytes ≡ (
  some (record { type = ipv6; host = codes "2001:0000:0000:0000:0000:0000:0000:0001"; port = 80 }),
  [],
)
unfolding parse_ss_address
v6_parsed = refl

-- An address that is cut off is no address; the bytes behind its type are left.
cut_off : parse_ss_address (1 ∷ 127 ∷ 0 ∷ 0 ∷ []) ≡ (none, 127 ∷ 0 ∷ 0 ∷ [])
unfolding parse_ss_address
cut_off = refl

encode_ss_address-parse_ss_address_example :
    IsTarget v4_target
    × ((front : Bytes) × (encode_ss_address toy_asio v4_target ≡ ok front)
        × (v4_bytes ≡ front ++ 99 ∷ []))
encode_ss_address-parse_ss_address_example =
    encode_ss_address-parse_ss_address toy_asio v4_bytes (99 ∷ []) v4_target toy_asio-IsAsio
      (
        omega arith,
        (
          omega arith,
          (
            omega arith,
            (omega arith, (omega arith, (omega arith, (omega arith, (omega arith, tt))))),
          ),
        ),
      )
      v4_parsed

pub v4_target-IsTarget : IsTarget v4_target
v4_target-IsTarget = record {
  host_fits = (
    127 ∷ 0 ∷ 0 ∷ 1 ∷ [],
    refl,
    (omega arith, (omega arith, (omega arith, (omega arith, tt)))),
    refl,
  );
  port_fits = omega arith;
}

parse_ss_address-encode_ss_address_example :
    (out : Bytes) × (encode_ss_address toy_asio v4_target ≡ ok out)
    × (parse_ss_address (out ++ 5 ∷ []) ≡ (some v4_target, 5 ∷ []))
parse_ss_address-encode_ss_address_example =
    parse_ss_address-encode_ss_address toy_asio v4_target (5 ∷ []) toy_asio-IsAsio
      v4_target-IsTarget
