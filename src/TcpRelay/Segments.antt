-- ===== src/TcpRelay/Segments.antt =====
-- The loop over the chunks of a client's stream: it ends, and how the stream is cut into reads does
-- not matter.
use ovpn2ss.Common.{
  ℕ, zero, suc, ◌-◌, ◌<◌, ◌≡◌, refl, sym, ap, ◌∙◌, none, some, inl, inr, Bytes, ◌++◌, length, arith,
  length-append,
}
use ovpn2ss.Common.Outcome.{Error, Result, ok, err, Result-cases}
use ovpn2ss.Aead.Crypto.{Crypto}
use ovpn2ss.Aead.Session.{decrypt_tcp_chunk}
use ovpn2ss.Aead.Stream.{
  threw, waits, gives, Answer-cases, decrypt_tcp_chunk_takes, decrypt_tcp_chunk_keeps,
  decrypt_tcp_chunk-append, extend,
}
use ovpn2ss.Lwip.{Lwip}
use ovpn2ss.TcpRelay.State.{Relay}
use ovpn2ss.TcpRelay.Upstream.{process_decrypted_chunk}
use ovpn2ss.TcpRelay.Reading.{read_loop, after_loop, on_read, ReadEnd, gave, ended, failed}

module _ (c : Crypto) (l : Lwip) where
  -- What a round makes of the chunk that it found.
  abbrev pub processed : Bytes → Bytes → Relay l → Relay l × Result (Unit {0})
  processed view chunk r =
      process_decrypted_chunk l chunk (record r { crypto = (decrypt_tcp_chunk c view r.crypto).0 })

  pub round_gives :
      (fuel : ℕ) (view chunk rest : Bytes) (r : Relay l)
      → (decrypt_tcp_chunk c view r.crypto).1 ≡ ok (some (chunk, rest))
      → (u : Unit {0}) → (processed view chunk r).1 ≡ ok u
      → read_loop c l (suc fuel) view r ≡ read_loop c l fuel rest (processed view chunk r).0
  unfolding read_loop
  round_gives fuel view chunk rest r e u f = rw (e, read_loop, f)

  pub round_fails :
      (fuel : ℕ) (view chunk rest : Bytes) (r : Relay l)
      → (decrypt_tcp_chunk c view r.crypto).1 ≡ ok (some (chunk, rest))
      → (x : Error) → (processed view chunk r).1 ≡ err x
      → read_loop c l (suc fuel) view r ≡ some ((processed view chunk r).0, err x)
  unfolding read_loop
  round_fails fuel view chunk rest r e x f = rw (e, read_loop, f)

  round_waits :
      (fuel : ℕ) (view : Bytes) (r : Relay l)
      → (decrypt_tcp_chunk c view r.crypto).1 ≡ ok none
      → read_loop c l (suc fuel) view r ≡ some (r, ok view)
  unfolding read_loop
  round_waits fuel view r e =
      let same = decrypt_tcp_chunk_keeps c view r.crypto (rw e) in rw (e, read_loop, same)

  round_throws :
      (fuel : ℕ) (view : Bytes) (r : Relay l) (x : Error)
      → (decrypt_tcp_chunk c view r.crypto).1 ≡ err x
      → read_loop c l (suc fuel) view r ≡ some (r, err x)
  unfolding read_loop
  round_throws fuel view r x e =
      let same = decrypt_tcp_chunk_keeps c view r.crypto (rw e) in rw (e, read_loop, same)

  read_loop-zero : (view : Bytes) (r : Relay l) → read_loop c l zero view r ≡ none
  unfolding read_loop
  read_loop-zero view r = refl

  -- A round for each byte of the view, and one more, are enough: the loop ends.
  read_loop_total :
      (fuel : ℕ) (view : Bytes) (r : Relay l)
      → length view < fuel
      → (end : Relay l × Result Bytes) × (read_loop c l fuel view r ≡ some end)
  read_loop_total zero view r h = absurd (omega arith)
  read_loop_total (suc fuel) view r h = elim (Answer-cases (decrypt_tcp_chunk c view r.crypto).1) [
    | threw x e ↦ ((r, err x), round_throws fuel view r x e)
    | waits e ↦ ((r, ok view), round_waits fuel view r e)
    | gives chunk rest e ↦ elim (Result-cases (processed view chunk r).1) [
      | inr (x, f) ↦ (((processed view chunk r).0, err x), round_fails fuel view chunk rest r e x f)
      | inl (u, f) ↦
          let (end, more) =
            read_loop_total fuel rest (processed view chunk r).0
              (omega (arith, decrypt_tcp_chunk_takes c view chunk rest r.crypto e)) in
          (end, round_gives fuel view chunk rest r e u f ∙ more)
    ]
  ]

  -- Every read that completes, with bytes, by eof or by an error, leaves a session: the loop over
  -- the chunks in it does not run out of rounds.
  pub on_read_total : (end : ReadEnd) (r : Relay l) → (r' : Relay l) × (on_read c l end r ≡ some r')
  unfolding on_read
  on_read_total (gave bytes) r =
      let view = r.encrypted_in ++ bytes in
      let (end, e) =
        read_loop_total (suc (length view)) view
          (record r { encrypted_in = view; reads = r.reads - 1 }) (omega arith) in
      (after_loop c l end, rw (e, on_read))
  on_read_total ended r = (_, refl)
  on_read_total failed r = (_, refl)

  -- Any two numbers of rounds that are enough give the same.
  read_loop_fuel :
      (f g : ℕ) (view : Bytes) (r : Relay l)
      → length view < f
      → length view < g
      → read_loop c l f view r ≡ read_loop c l g view r
  read_loop_fuel zero g view r h k = absurd (omega arith)
  read_loop_fuel (suc f) zero view r h k = absurd (omega arith)
  read_loop_fuel (suc f) (suc g) view r h k =
      elim (Answer-cases (decrypt_tcp_chunk c view r.crypto).1) [
        | threw x e ↦ round_throws f view r x e ∙ sym (round_throws g view r x e)
        | waits e ↦ round_waits f view r e ∙ sym (round_waits g view r e)
        | gives chunk rest e ↦ elim (Result-cases (processed view chunk r).1) [
          | inr (x, q) ↦
              round_fails f view chunk rest r e x q ∙ sym (round_fails g view chunk rest r e x q)
          | inl (u, q) ↦
              let takes = decrypt_tcp_chunk_takes c view chunk rest r.crypto e in
              round_gives f view chunk rest r e u q
              ∙ read_loop_fuel f g rest _ (omega (arith, takes)) (omega (arith, takes))
              ∙ sym (round_gives g view chunk rest r e u q)
        ]
      ]

  -- A stream that comes in two reads is opened and processed as it would be in one: with rounds
  -- enough, what the loop has left of the first part, with the second part behind it, goes on where
  -- the loop stopped.
  pub read_loop-append :
      (f g k : ℕ) (view more rest : Bytes) (r r1 : Relay l)
      → read_loop c l f view r ≡ some (r1, ok rest)
      → length (view ++ more) < g
      → length (rest ++ more) < k
      → read_loop c l g (view ++ more) r ≡ read_loop c l k (rest ++ more) r1
  read_loop-append zero g k view more rest r r1 h m n = cc (h, read_loop-zero view r)
  read_loop-append (suc f) zero k view more rest r r1 h m n = absurd (omega arith)
  read_loop-append (suc f) (suc g) k view more rest r r1 h m n =
      elim (Answer-cases (decrypt_tcp_chunk c view r.crypto).1) [
        | threw x e ↦ cc (h, round_throws f view r x e)
        | waits e ↦
            let same_state : r ≡ r1 = cc (h, round_waits f view r e) in
            let same_view : view ≡ rest = cc (h, round_waits f view r e) in
            rw (← same_state, ← same_view)
              (read_loop_fuel (suc g) k (view ++ more) r m (rw same_view n))
        | gives chunk rest1 e ↦ elim (Result-cases (processed view chunk r).1) [
          | inr (x, q) ↦ cc (h, round_fails f view chunk rest1 r e x q)
          | inl (u, q) ↦
              let longer = decrypt_tcp_chunk-append c more view r.crypto (λ w. cc (w, e)) in
              let again =
                ap (λ a. process_decrypted_chunk l chunk (record r { crypto = a.0 })) longer in
              let shorter : length (rest1 ++ more) < g = omega (
                arith,
                decrypt_tcp_chunk_takes c view chunk rest1 r.crypto e,
                length-append view more,
                length-append rest1 more,
              ) in
              round_gives g (view ++ more) chunk (rest1 ++ more) r
                (ap (λ a. a.1) longer ∙ ap (extend more) e) u (ap (λ a. a.1) again ∙ q)
              ∙ ap (λ a. read_loop c l g (rest1 ++ more) a.0) again
              ∙ read_loop-append f g k rest1 more rest (processed view chunk r).0 r1
                  (sym (round_gives f view chunk rest1 r e u q) ∙ h) shorter n
        ]
      ]
