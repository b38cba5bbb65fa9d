-- ===== src/Dns/Guards.antt =====
-- What parse_dns_response asks of a packet before it takes an address from it.
use ovpn2ss.Common.{
  ℕ, ◌/◌, ◌%◌, ◌^◌, ◌≤◌, ◌≡◌, inl, inr, some, Bytes, ltb, length, arith, Bool-cases, ltb_false→le,
}
use ovpn2ss.Common.Outcome.{ok, Result-cases}
use ovpn2ss.Dns.Packet.{read_u16}
use ovpn2ss.Dns.Response.{IpAddr, parse_dns_response}

-- A packet with a whole header, the identity of the query, the mark of an answer and no error code.
pub record IsAnswer (p : Bytes) (id : ℕ) : Type 0 where
  pub whole : 12 ≤ length p
  pub same_id : read_u16 p 0 ≡ ok id
  pub flags : ℕ
  pub flags_are : read_u16 p 2 ≡ ok flags
  pub is_response : flags / 2 ^ 15 % 2 ≡ 1
  pub no_error : flags % 16 ≡ 0

-- An address is taken only from a packet with a whole header that has the identity of the query,
-- the mark of a response and no error code.
pub parse_dns_response-IsAnswer :
    (p : Bytes) (id qtype : ℕ) (ip : IpAddr)
    → parse_dns_response p id qtype ≡ ok (some ip)
    → IsAnswer p id
unfolding parse_dns_response
parse_dns_response-IsAnswer p id qtype ip e = elim (Bool-cases (ltb (length p) 12)) [
  | inl s ↦ ground arith
  | inr s ↦ elim (Result-cases (read_u16 p 0)) [
    | inr (x, f) ↦ ground arith
    | inl (i, f) ↦ elim (Result-cases (read_u16 p 2)) [
      | inr (x, g) ↦ ground arith
      | inl (fl, g) ↦ record {
        whole = ltb_false→le (length p) 12 s;
        same_id = ground arith;
        flags = fl;
        flags_are = g;
        is_response = ground arith;
        no_error = ground arith;
      }
    ]
  ]
]
