-- ===== src/TcpRelay/Opening.antt =====
-- What a client makes of the buffers that a session sends it: an independent reading of the answers.
use ovpn2ss.Common.{
  ℕ, zero, suc, ◌≡◌, refl, sym, ap, ◌∙◌, Option, none, some, Bytes, List, [], ◌∷◌, ◌++◌, length,
  arith, append_assoc, append-nil,
}
use ovpn2ss.Common.Outcome.{ok, err}
use ovpn2ss.Aead.Crypto.{Crypto}
use ovpn2ss.Aead.Session.{Session, decrypt_tcp_chunk}

-- The buffers as the stream that they make up.
abbrev pub flat : List Bytes → Bytes
flat [] = []
flat (x ∷ xs) = x ++ flat xs

module _ (c : Crypto) where
  -- `bytes` and what follows it.
  abbrev before : Bytes → Option (Bytes × Bytes) → Option (Bytes × Bytes)
  before bytes none = none
  before bytes (some (plain, rest)) = some (bytes ++ plain, rest)

  -- A client that opens chunks for as long as there are any, on fuel: the bytes of all of them, and
  -- what is left of the stream.
  unfoldable pub open_stream : ℕ → Bytes → Session → Option (Bytes × Bytes)
  open_stream zero view s = none
  open_stream (suc fuel) view s =
      let (s1, answer) = decrypt_tcp_chunk c view s in
      elim answer [
        | err e ↦ none
        | ok found ↦ elim found [
          | none ↦ some ([], view)
          | some (bytes, rest) ↦ before bytes (open_stream fuel rest s1)
        ]
      ]

  -- Each buffer is a chunk, whatever follows it, and `stream` is what they carry in all.
  abbrev pub Opens : List Bytes → Session → Bytes → Session → Type 0
  Opens [] s stream s' = (stream ≡ []) × (s' ≡ s)
  Opens (x ∷ xs) s stream s' =
      (s1 : Session) × (bytes : Bytes) × (tail : Bytes) × ((rest : Bytes)
        → decrypt_tcp_chunk c (x ++ rest) s ≡ (s1, ok (some (bytes, rest))))
      × (stream ≡ bytes ++ tail)
      × Opens xs s1 tail s'

  pub Opens-append :
      (xs : List Bytes) (x stream bytes : Bytes) (s s' s'' : Session)
      → Opens xs s stream s'
      → ((rest : Bytes) → decrypt_tcp_chunk c (x ++ rest) s' ≡ (s'', ok (some (bytes, rest))))
      → Opens (xs ++ x ∷ []) s (stream ++ bytes) s''
  Opens-append [] x stream bytes s s' s'' (e, f) h =
      (s'', bytes, [], rw (← f) h, rw e (sym (append-nil bytes)), (refl, refl))
  Opens-append (y ∷ ys) x stream bytes s s' s'' (s1, first, tail, d, e, more) h = (
    s1,
    first,
    tail ++ bytes,
    d,
    rw e (append_assoc first tail bytes),
    Opens-append ys x tail bytes s1 s' s'' more h,
  )

  open_stream_end : (fuel : ℕ) (s : Session) → open_stream (suc fuel) [] s ≡ some ([], [])
  unfolding open_stream decrypt_tcp_chunk
  open_stream_end fuel s = ground arith

  open_stream_chunk :
      (fuel : ℕ) (view bytes rest : Bytes) (s s1 : Session)
      → decrypt_tcp_chunk c view s ≡ (s1, ok (some (bytes, rest)))
      → open_stream (suc fuel) view s ≡ before bytes (open_stream fuel rest s1)
  unfolding open_stream
  open_stream_chunk fuel view bytes rest s s1 e = ground arith

  pub open_stream-Opens :
      (xs : List Bytes) (stream : Bytes) (s s' : Session)
      → Opens xs s stream s'
      → open_stream (suc (length xs)) (flat xs) s ≡ some (stream, [])
  open_stream-Opens [] stream s s' (e, f) = rw e (open_stream_end 0 s)
  open_stream-Opens (x ∷ xs) stream s s' (s1, bytes, tail, d, e, more) =
      open_stream_chunk (suc (length xs)) (x ++ flat xs) bytes (flat xs) s s1 (d (flat xs))
      ∙ ap (before bytes) (open_stream-Opens xs tail s1 s' more)
      ∙ rw e refl
