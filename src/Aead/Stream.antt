-- ===== src/Aead/Stream.antt =====
-- decrypt_tcp_chunk on a stream that grows: what has come in later changes no earlier answer.
use ovpn2ss.Common.{
  ◌≢◌, ℕ, ◌+◌, ◌%◌, ◌^◌, ◌≤◌, ◌≡◌, refl, ap, ◌∙◌, Bool, true, false, not, ◌||◌, Option, none, some,
  inl, inr, Bytes, ◌++◌, length, take, drop, arith, length-append, take-append_le, drop-append_le,
  le→ltb_false, Option-cases, Bool-cases, ltb, ltb_false→le, length-drop,
}
use ovpn2ss.Common.Outcome.{Error, Result, ok, err}
use ovpn2ss.Aead.Crypto.{Crypto}
use ovpn2ss.Aead.Session.{Session, decrypt, decrypt_tcp_chunk, open_payload, read_be16}

-- A cut that ends inside the first part.
cut-append :
    (from n : ℕ) (xs ys : Bytes)
    → from + n ≤ length xs
    → take n (drop from (xs ++ ys)) ≡ take n (drop from xs)
cut-append from n xs ys h =
    ap (take n) (drop-append_le from xs ys (omega arith))
    ∙ take-append_le n (drop from xs) ys (omega (arith, length-drop from xs))

-- The answer on a longer stream, if the shorter one has an answer.
abbrev pub extend : Bytes → Result (Option (Bytes × Bytes)) → Result (Option (Bytes × Bytes))
extend more (ok (some (plain, rest))) = ok (some (plain, rest ++ more))
extend more r = r

module _ (c : Crypto) (more : Bytes) where
  open_payload-append :
      (n : ℕ) (nonce stream : Bytes) (s : Session)
      → 18 + n + 16 ≤ length stream
      → open_payload c n nonce (stream ++ more) s
        ≡ ((open_payload c n nonce stream s).0, extend more (open_payload c n nonce stream s).1)
  unfolding open_payload
  open_payload-append n nonce stream s h =
      let body = cut-append 18 n stream more (omega arith) in
      let tag = cut-append (18 + n) 16 stream more h in
      let long =
        le→ltb_false (length (stream ++ more)) (18 + n + 16)
          (omega (arith, length-append stream more)) in
      let fits = le→ltb_false (length stream) (18 + n + 16) h in
      elim (Option-cases
        (decrypt c s.recv_key nonce (take n (drop 18 stream)) (take 16 (drop (18 + n) stream)))) [
          | inl e ↦ rw (body, tag, long, fits, e)
          | inr ((nonce', plain), e) ↦
              rw (body, tag, long, fits, e, drop-append_le (18 + n + 16) stream more h)
        ]

  open_payload_short :
      (n : ℕ) (nonce stream : Bytes) (s : Session)
      → ltb (length stream) (18 + n + 16) ≡ true
      → (open_payload c n nonce stream s).1 ≡ ok none
  unfolding open_payload
  open_payload_short n nonce stream s e = rw e

  -- A chunk or an error that a stream gives is also what every longer stream gives, with the same
  -- session left; of a chunk, what came in later joins the rest. So an answer never depends on how
  -- much more has arrived.
  pub decrypt_tcp_chunk-append :
      (stream : Bytes) (s : Session)
      → (decrypt_tcp_chunk c stream s).1 ≢ ok none
      → decrypt_tcp_chunk c (stream ++ more) s
        ≡ ((decrypt_tcp_chunk c stream s).0, extend more (decrypt_tcp_chunk c stream s).1)
  unfolding decrypt_tcp_chunk
  decrypt_tcp_chunk-append stream s h =
      elim (Bool-cases (not s.have_recv_key || ltb (length stream) 18)) [
        | inl waits ↦ absurd (h (rw waits))
        | inr ready ↦
            let enough : 18 ≤ length stream = ground arith in
            let longer : (not s.have_recv_key || ltb (length (stream ++ more)) 18) ≡ false =
              ground (arith, length-append stream more) in
            let head = take-append_le 2 stream more (omega arith) in
            let tag = cut-append 2 16 stream more enough in
            elim (Option-cases
              (decrypt c s.recv_key s.recv_nonce (take 2 stream) (take 16 (drop 2 stream)))) [
                | inl e ↦ rw (ready, longer, head, tag, e)
                | inr ((nonce, len_plain), e) ↦
                    let n = read_be16 len_plain % 2 ^ 14 in
                    elim (Bool-cases (ltb (length stream) (18 + n + 16))) [
                      | inl short ↦
                          absurd (h (rw (ready, e) (open_payload_short n nonce stream s short)))
                      | inr fits ↦
                          rw (ready, longer, head, tag, e)
                            (open_payload-append n nonce stream s
                              (ltb_false→le (length stream) (18 + n + 16) fits))
                    ]
              ]
      ]

abbrev pub gives_chunk : Result (Option (Bytes × Bytes)) → Bool
gives_chunk (ok (some p)) = true
gives_chunk _ = false

-- When no chunk is opened, be it that the stream is short, that there is no key yet or that a tag
-- is wrong, the session is as it was: a stream that is tried again later starts from the same
-- nonce.
pub decrypt_tcp_chunk_keeps :
    (c : Crypto) (stream : Bytes) (s : Session)
    → gives_chunk (decrypt_tcp_chunk c stream s).1 ≡ false
    → (decrypt_tcp_chunk c stream s).0 ≡ s
unfolding decrypt_tcp_chunk open_payload
decrypt_tcp_chunk_keeps c stream s h = ground arith

-- How decrypt_tcp_chunk answers.
pub data Answer : Result (Option (Bytes × Bytes)) → Type 0 where
  threw : {r : Result (Option (Bytes × Bytes))} (e : Error) → r ≡ err e → Answer r
  waits : {r : Result (Option (Bytes × Bytes))} → r ≡ ok none → Answer r
  gives :
      {r : Result (Option (Bytes × Bytes))} (chunk rest : Bytes)
      → r ≡ ok (some (chunk, rest))
      → Answer r

pub Answer-cases : (r : Result (Option (Bytes × Bytes))) → Answer r
Answer-cases (err e) = threw e refl
Answer-cases (ok none) = waits refl
Answer-cases (ok (some (chunk, rest))) = gives chunk rest refl

-- A chunk takes 34 bytes of the stream at least.
open_payload_takes :
    (c : Crypto) (n : ℕ) (nonce stream chunk rest : Bytes) (s : Session)
    → (open_payload c n nonce stream s).1 ≡ ok (some (chunk, rest))
    → length rest + 34 ≤ length stream
unfolding open_payload
open_payload_takes c n nonce stream chunk rest s e =
    ground (arith, length-drop (18 + n + 16) stream)

pub decrypt_tcp_chunk_takes :
    (c : Crypto) (stream chunk rest : Bytes) (s : Session)
    → (decrypt_tcp_chunk c stream s).1 ≡ ok (some (chunk, rest))
    → length rest + 34 ≤ length stream
unfolding decrypt_tcp_chunk
decrypt_tcp_chunk_takes c stream chunk rest s e =
    elim (Option-cases
      (decrypt c s.recv_key s.recv_nonce (take 2 stream) (take 16 (drop 2 stream)))) [
        | inl none_found ↦ ground arith
        | inr ((nonce, len_plain), found) ↦
            open_payload_takes c (read_be16 len_plain % 2 ^ 14) nonce stream chunk rest s
              (ground arith)
      ]
