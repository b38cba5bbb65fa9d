-- ===== src/Dns/Packet.antt =====
-- Bytes and names in a DNS packet (read_u16, read_u32 and skip_dns_name of src/LwipRuntime.cpp).
-- Reading behind the end of a packet is the error `out_of_bounds`. Offsets are below 2^17, since a
-- packet has a 16-bit length, so std::size_t does not wrap.
use ovpn2ss.Common.{
  ℕ, zero, suc, ◌+◌, ◌*◌, ◌/◌, ◌^◌, Option, none, some, Bytes, not, ltb, ◌==◌, if◌then◌else◌,
  length, get_elem?,
}
use ovpn2ss.Common.Outcome.{Result, ok, err, out_of_bounds, ◌>>=◌}

unfoldable pub read_u8 : Bytes → ℕ → Result ℕ
read_u8 packet offset = elim (get_elem? packet offset) [ none ↦ err out_of_bounds | some b ↦ ok b ]

-- `a << 8 | b` is a sum for bytes.
unfoldable pub read_u16 : Bytes → ℕ → Result ℕ
unfolding read_u8
read_u16 packet offset = do
  hi ← read_u8 packet offset
  lo ← read_u8 packet (offset + 1)
  ok (hi * 256 + lo)

unfoldable pub read_u32 : Bytes → ℕ → Result ℕ
unfolding read_u16
read_u32 packet offset = do
  hi ← read_u16 packet offset
  lo ← read_u16 packet (offset + 2)
  ok (hi * 2 ^ 16 + lo)

-- What a round of skip_dns_name makes of the length byte `len` at `offset`: `len & 0xc0` is the two
-- top bits. `next` is the rest of the loop.
unfoldable pub skip_label : Bytes → ℕ → (ℕ → Result (Option ℕ)) → ℕ → Result (Option ℕ)
skip_label packet offset next len =
    if len / 64 == 3
    then (if ltb (offset + 1) (length packet) then ok (some (offset + 2)) else ok none)
    else if not (len / 64 == 0)
    then ok none
    else if len == 0
    then ok (some (offset + 1))
    else if ltb (length packet) (offset + 1 + len)
    then ok none
    else next (offset + 1 + len)

unfoldable pub skip_round : Bytes → (ℕ → Result (Option ℕ)) → ℕ → Result (Option ℕ)
unfolding skip_label
skip_round packet next offset =
    if ltb offset (length packet)
    then (do len ← read_u8 packet offset; skip_label packet offset next len)
    else ok none

-- `left` is how often `jumps` may still go up: 255 - jumps. Without any left the loop ends with false.
unfoldable pub skip_loop : ℕ → Bytes → ℕ → Result (Option ℕ)
unfolding skip_round
skip_loop zero packet = skip_round packet (λ offset. ok none)
skip_loop (suc left) packet = skip_round packet (skip_loop left packet)

-- `none` is false, `some` is true with the new offset. After false the callers use no offset.
unfoldable pub skip_dns_name : Bytes → ℕ → Result (Option ℕ)
unfolding skip_loop
skip_dns_name packet offset = skip_loop 255 packet offset
