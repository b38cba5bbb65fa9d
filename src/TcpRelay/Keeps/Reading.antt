-- ===== src/TcpRelay/Keeps/Reading.antt =====
-- The completions of the reads leave alone all that is for the client.
use ovpn2ss.Common.{
  ℕ, zero, suc, ◌-◌, refl, inl, inr, not, Option, none, some, Bytes, ◌++◌, length, ◌==◌, arith,
  Bool-cases, Option-cases,
}
use ovpn2ss.Common.Outcome.{Result, ok, err, Result-cases}
use ovpn2ss.Aead.Stream.{threw, waits, gives, Answer-cases}
use ovpn2ss.TcpRelay.Events.{or_else}
use ovpn2ss.Aead.Crypto.{Crypto}
use ovpn2ss.Aead.Session.{Session, set_client_salt, decrypt_tcp_chunk, open_payload}
use ovpn2ss.Lwip.{Lwip}
use ovpn2ss.TcpRelay.State.{Relay}
use ovpn2ss.TcpRelay.Closing.{close}
use ovpn2ss.TcpRelay.Upstream.{read_encrypted_stream, flush_to_lwip, process_decrypted_chunk}
use ovpn2ss.TcpRelay.Reading.{ReadEnd, gave, ended, failed, on_salt, read_loop, after_loop, on_read}
use ovpn2ss.TcpRelay.Keeps.{
  SameSending, Keeps, Keeps-refl, Keeps-trans, close-Keeps, handle_client_eof-Keeps,
  read_encrypted_stream-Keeps, flush_to_lwip-Keeps, process_decrypted_chunk-Keeps,
}

module _ (c : Crypto) where
  set_client_salt-SameSending :
      (salt : Bytes) (s : Session) → SameSending s (set_client_salt c salt s).0
  unfolding set_client_salt
  set_client_salt-SameSending salt s = ground arith

  decrypt_tcp_chunk-SameSending :
      (stream : Bytes) (s : Session) → SameSending s (decrypt_tcp_chunk c stream s).0
  unfolding decrypt_tcp_chunk open_payload
  decrypt_tcp_chunk-SameSending stream s = ground arith

module _ (c : Crypto) (l : Lwip) where
  -- A session whose crypto changed in its receiving half only.
  turned-Keeps :
      (s : Session) (r : Relay l) → SameSending r.crypto s → Keeps l r (record r { crypto = s })
  turned-Keeps s r k = record {
    writes = refl;
    writing = refl;
    pending = refl;
    count = refl;
    deferred = refl;
    recved = refl;
    salted = refl;
    sending = k;
    closes = ground arith;
  }

  pub on_salt-Keeps : (salt : Option Bytes) (r : Relay l) → Keeps l r (on_salt c l salt r)
  unfolding on_salt
  on_salt-Keeps none r = close-Keeps l r
  on_salt-Keeps (some salt) r =
      let (s, answer) = set_client_salt c salt r.crypto in
      let r1 = record r { crypto = s } in
      let turned = turned-Keeps s r (set_client_salt-SameSending c salt r.crypto) in
      elim (Result-cases answer) [
        | inl (u, e) ↦
            rw (e, on_salt)
              (Keeps-trans l r r1 (read_encrypted_stream l r1) turned
                (read_encrypted_stream-Keeps l r1))
        | inr (x, e) ↦ rw (e, on_salt) (Keeps-trans l r r1 (close l r1) turned (close-Keeps l r1))
      ]

  -- What a read that ended leaves.
  abbrev Loops : Relay l → Option (Relay l × Result Bytes) → Type 0
  Loops r none = Unit
  Loops r (some end) = Keeps l r end.0

  Loops-trans :
      (r r1 : Relay l) (end : Option (Relay l × Result Bytes))
      → Keeps l r r1
      → Loops r1 end
      → Loops r end
  Loops-trans r r1 none k h = tt
  Loops-trans r r1 (some end) k h = Keeps-trans l r r1 end.0 k h

  read_loop-Keeps : (fuel : ℕ) (view : Bytes) (r : Relay l) → Loops r (read_loop c l fuel view r)
  unfolding read_loop
  read_loop-Keeps zero view r = tt
  read_loop-Keeps (suc fuel) view r =
      let (s, answer) = decrypt_tcp_chunk c view r.crypto in
      let r1 = record r { crypto = s } in
      let turned = turned-Keeps s r (decrypt_tcp_chunk-SameSending c view r.crypto) in
      elim (Answer-cases answer) [
        | threw x e ↦ rw (e, read_loop) turned
        | waits e ↦ rw (e, read_loop) turned
        | gives chunk rest e ↦
            let (r2, done) = process_decrypted_chunk l chunk r1 in
            let both = Keeps-trans l r r1 r2 turned (process_decrypted_chunk-Keeps l chunk r1) in
            elim (Result-cases done) [
              | inr (x, f) ↦ rw (e, read_loop, f) both
              | inl (u, f) ↦
                  rw (e, read_loop, f)
                    (Loops-trans r r2 (read_loop c l fuel rest r2) both
                      (read_loop-Keeps fuel rest r2))
            ]
      ]

  after_loop-Keeps : (end : Relay l × Result Bytes) → Keeps l end.0 (after_loop c l end)
  unfolding after_loop
  after_loop-Keeps (r, err e) = close-Keeps l r
  after_loop-Keeps (r, ok rest) =
      let cut = record r { encrypted_in = rest } in
      let go = λ (x : Relay l).
        Keeps-trans l x (flush_to_lwip l x) (read_encrypted_stream l (flush_to_lwip l x))
          (flush_to_lwip-Keeps l x) (read_encrypted_stream-Keeps l (flush_to_lwip l x)) in
      elim (Bool-cases (not (length r.encrypted_in - length rest == 0))) [
        | inl e ↦ rw e (go cut)
        | inr e ↦ rw e (go r)
      ]

  pub on_read-Keeps : (end : ReadEnd) (r : Relay l) → Keeps l r (or_else c l r (on_read c l end r))
  unfolding on_read
  on_read-Keeps (gave bytes) r =
      let view = r.encrypted_in ++ bytes in
      let r0 = record r { encrypted_in = view; reads = r.reads - 1 } in
      let loops = read_loop-Keeps (suc (length view)) view r0 in
      elim (Option-cases (read_loop c l (suc (length view)) view r0)) [
        | inl e ↦ rw (e, on_read) (Keeps-refl l r)
        | inr (end, e) ↦
            rw (e, on_read)
              (Keeps-trans l r end.0 (after_loop c l end) (rw e at loops) (after_loop-Keeps end))
      ]
  on_read-Keeps ended r = handle_client_eof-Keeps l (record r { reads = r.reads - 1 })
  on_read-Keeps failed r = close-Keeps l (record r { reads = r.reads - 1 })
