-- ===== src/Dns/Response.antt =====
-- parse_dns_response of src/LwipRuntime.cpp.
use ovpn2ss.Common.{
  ℕ, zero, suc, ◌+◌, ◌/◌, ◌%◌, ◌^◌, ◌&&◌, ◌||◌, not, Option, none, some, Bytes, ltb, ◌==◌,
  if◌then◌else◌, length,
}
use ovpn2ss.Common.Outcome.{Result, ok, ◌>>=◌}
use ovpn2ss.Dns.Packet.{read_u8, read_u16, read_u32, skip_dns_name}
use ovpn2ss.Dns.Query.{dns_type_a, dns_type_aaaa, dns_class_in}

-- What IP_ADDR4 and IP_ADDR6 store: the four bytes, or the four words as they are given.
pub data IpAddr : Type 0 where
  ip4 ip6 : ℕ → ℕ → ℕ → ℕ → IpAddr

-- The loop over the questions.
unfoldable pub skip_questions : ℕ → Bytes → ℕ → Result (Option ℕ)
skip_questions zero packet offset = ok (some offset)
skip_questions (suc n) packet offset = do
  skipped ← skip_dns_name packet offset
  elim skipped [
    | none ↦ ok none
    | some o ↦ if ltb (length packet) (o + 4) then ok none else skip_questions n packet (o + 4)
  ]

unfoldable pub read_ip4 : Bytes → ℕ → Result (Option IpAddr)
read_ip4 packet o = do
  a ← read_u8 packet o
  b ← read_u8 packet (o + 1)
  c ← read_u8 packet (o + 2)
  d ← read_u8 packet (o + 3)
  ok (some (ip4 a b c d))

unfoldable pub read_ip6 : Bytes → ℕ → Result (Option IpAddr)
read_ip6 packet o = do
  a ← read_u32 packet o
  b ← read_u32 packet (o + 4)
  c ← read_u32 packet (o + 8)
  d ← read_u32 packet (o + 12)
  ok (some (ip6 a b c d))

-- The address that a record with its data at `o` holds, if it is one that was asked for.
unfoldable pub record_address : ℕ → Bytes → ℕ → ℕ → ℕ → ℕ → Result (Option IpAddr)
unfolding read_ip4 read_ip6
record_address qtype packet type klass rdlen o =
    if klass == dns_class_in && type == qtype
    then (if type == dns_type_a && rdlen == 4
        then read_ip4 packet o
        else if type == dns_type_aaaa && rdlen == 16
        then read_ip6 packet o
        else ok none)
    else ok none

-- The loop over the answers.
unfoldable pub read_answers : ℕ → ℕ → Bytes → ℕ → Result (Option IpAddr)
unfolding record_address
read_answers zero qtype packet offset = ok none
read_answers (suc n) qtype packet offset = do
  skipped ← skip_dns_name packet offset
  elim skipped [
    | none ↦ ok none
    | some o ↦ if ltb (length packet) (o + 10) then ok none else do
      type ← read_u16 packet o
      klass ← read_u16 packet (o + 2)
      rdlen ← read_u16 packet (o + 8)
      (if ltb (length packet) (o + 10 + rdlen) then ok none else do
        found ← record_address qtype packet type klass rdlen (o + 10)
        elim found [ some ip ↦ ok (some ip) | none ↦ read_answers n qtype packet (o + 10 + rdlen) ])
  ]

-- The two loops, behind the header.
unfoldable pub read_sections : ℕ → Bytes → Result (Option IpAddr)
unfolding skip_questions read_answers
read_sections qtype packet = do
  qdcount ← read_u16 packet 4
  ancount ← read_u16 packet 6
  skipped ← skip_questions qdcount packet 12
  elim skipped [ none ↦ ok none | some o ↦ read_answers ancount qtype packet o ]

-- `flags & 0x8000` is the top bit, `flags & 0x000f` the rest by 16.
unfoldable pub parse_dns_response : Bytes → ℕ → ℕ → Result (Option IpAddr)
unfolding read_sections
parse_dns_response packet id qtype = if ltb (length packet) 12 then ok none else do
  id' ← read_u16 packet 0
  (if not (id' == id) then ok none else do
    flags ← read_u16 packet 2
    (if flags / 2 ^ 15 % 2 == 0 || not (flags % 16 == 0)
        then ok none
        else read_sections qtype packet))
