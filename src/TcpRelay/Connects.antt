-- ===== src/TcpRelay/Connects.antt =====
-- What a client seals reaches the target that it names: its address is connected to, and the payload
-- behind it is queued for it.
use ovpn2ss.Common.{
  ℕ, suc, ◌≡◌, refl, sym, ap, ◌∙◌, Bool, true, false, if◌then◌else◌, Option, some, inl, inr, Bytes,
  [], ◌++◌, arith, append-nil,
}
use ovpn2ss.Common.Outcome.{Error, Result, ok, err, Result-cases}
use ovpn2ss.Aead.Crypto.{Crypto, IsCrypto}
use ovpn2ss.Aead.Session.{Session, encrypt_tcp_chunk, decrypt_tcp_chunk}
use ovpn2ss.Aead.TcpChunk.{Synced, followed, decrypt_tcp_chunk-followed}
use ovpn2ss.Address.{Asio, TargetAddress, parse_ss_address, encode_ss_address}
use ovpn2ss.Address.RoundTrip.{IsAsio, IsTarget, parse_ss_address-encode_ss_address}
use ovpn2ss.Lwip.{Lwip}
use ovpn2ss.TcpRelay.State.{Relay}
use ovpn2ss.TcpRelay.Upstream.{
  connect_target, queue_upstream, then_queue, process_target, process_decrypted_chunk,
}
use ovpn2ss.TcpRelay.Segments.{processed, round_gives, round_fails}
use ovpn2ss.TcpRelay.Reading.{read_loop}

module _ (c : Crypto) (l : Lwip) where
  -- How the loop over the chunks ends behind one chunk that leaves nothing.
  abbrev pub read_whole : Relay l × Result (Unit {0}) → Option (Relay l × Result Bytes)
  read_whole (r, ok u) = some (r, ok [])
  read_whole (r, err e) = some (r, err e)

  read_loop_nothing : (fuel : ℕ) (r : Relay l) → read_loop c l (suc fuel) [] r ≡ some (r, ok [])
  unfolding read_loop decrypt_tcp_chunk
  read_loop_nothing fuel r = ground arith

  read_whole_ok :
      (m : Relay l × Result (Unit {0})) (u : Unit {0})
      → m.1 ≡ ok u
      → read_whole m ≡ some (m.0, ok [])
  read_whole_ok (r, ok w) u e = refl
  read_whole_ok (r, err x) u e = cc

  read_whole_err :
      (m : Relay l × Result (Unit {0})) (x : Error) → m.1 ≡ err x → read_whole m ≡ some (m.0, err x)
  read_whole_err (r, ok w) x e = cc
  read_whole_err (r, err y) x e = let same : y ≡ x = ground arith in rw same refl

  read_loop_chunk :
      (fuel : ℕ) (view chunk : Bytes) (s : Session) (r : Relay l)
      → decrypt_tcp_chunk c view r.crypto ≡ (s, ok (some (chunk, [])))
      → read_loop c l (suc (suc fuel)) view r
        ≡ read_whole (process_decrypted_chunk l chunk (record r { crypto = s }))
  read_loop_chunk fuel view chunk s r e =
      let m = process_decrypted_chunk l chunk (record r { crypto = s }) in
      let found : (decrypt_tcp_chunk c view r.crypto).1 ≡ ok (some (chunk, [])) = ap (λ x. x.1) e in
      let same : processed c l view chunk r ≡ m =
        ap (λ x. process_decrypted_chunk l chunk (record r { crypto = x.0 })) e in
      elim (Result-cases m.1) [
        | inl (u, f) ↦
            round_gives c l (suc fuel) view chunk [] r found u (ap (λ x. x.1) same ∙ f)
            ∙ ap (λ (x : Relay l × Result (Unit {0})). read_loop c l (suc fuel) [] x.0) same
            ∙ read_loop_nothing fuel m.0
            ∙ sym (read_whole_ok m u f)
        | inr (x, f) ↦
            round_fails c l (suc fuel) view chunk [] r found x (ap (λ x. x.1) same ∙ f)
            ∙ ap (λ (y : Relay l × Result (Unit {0})). some (y.0, err x)) same
            ∙ sym (read_whole_err m x f)
      ]

  if_false : (b : Bool) (x y : Relay l × Result (Unit {0})) → b ≡ false → (if b then x else y) ≡ y
  if_false true x y e = cc
  if_false false x y e = refl

  process_decrypted_chunk_first :
      (chunk payload : Bytes) (t : TargetAddress) (r : Relay l)
      → r.got_target ≡ false
      → parse_ss_address chunk ≡ (some t, payload)
      → process_decrypted_chunk l chunk r
        ≡ then_queue l payload (connect_target l t (record r { got_target = true }))
  unfolding process_decrypted_chunk process_target
  process_decrypted_chunk_first chunk payload t r first e =
      if_false r.got_target (queue_upstream l chunk r, ok tt)
        (process_target l (parse_ss_address chunk).0 (parse_ss_address chunk).1 r) first
      ∙ ap (λ (x : Option TargetAddress × Bytes). process_target l x.0 x.1 r) e

module _ (c : Crypto) (a : Asio) (l : Lwip) where
  -- A client in step with the session seals one chunk of the encoding of a target and a payload. On
  -- a session without a target, the loop over the chunks then connects to just that target and
  -- queues just that payload for it, leaves nothing of the stream, and ends by the error that
  -- connecting threw, if it did.
  pub read_loop-encode_ss_address :
      (fuel : ℕ) (t : TargetAddress) (front payload out : Bytes) (s s' : Session) (r : Relay l)
      → IsCrypto c
      → IsAsio a
      → IsTarget t
      → encode_ss_address a t ≡ ok front
      → encrypt_tcp_chunk c (front ++ payload) s ≡ (s', ok out)
      → Synced s r.crypto
      → r.got_target ≡ false
      → read_loop c l (suc (suc fuel)) out r
        ≡ read_whole c l (
            then_queue l payload (
              connect_target l t (record r { crypto = followed c s' r.crypto; got_target = true })))
  read_loop-encode_ss_address fuel t front payload out s s' r v w k enc e y first =
      let (raw, enc', dec) = parse_ss_address-encode_ss_address a t payload w k in
      let same_front : raw ≡ front = ground arith in
      let opened : decrypt_tcp_chunk c out r.crypto
          ≡ (followed c s' r.crypto, ok (some (front ++ payload, []))) =
        ap (λ x. decrypt_tcp_chunk c x r.crypto) (sym (append-nil out))
        ∙ decrypt_tcp_chunk-followed c (front ++ payload) out [] s s' r.crypto v y e in
      let named : parse_ss_address (front ++ payload) ≡ (some t, payload) =
        ap (λ x. parse_ss_address (x ++ payload)) (sym same_front) ∙ dec in
      read_loop_chunk c l fuel out (front ++ payload) (followed c s' r.crypto) r opened
      ∙ ap (read_whole c l) (
          process_decrypted_chunk_first c l (front ++ payload) payload t
            (record r { crypto = followed c s' r.crypto }) first named)
