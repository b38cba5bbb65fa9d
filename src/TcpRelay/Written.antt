-- ===== src/TcpRelay/Written.antt =====
-- The completion of a write to the client keeps a session sound, or closes it.
use ovpn2ss.Common.{
  ℕ, ◌+◌, ◌^◌, ◌<◌, ◌≡◌, refl, ap, ◌∙◌, ◌⊎◌, inl, inr, true, false, not, ◌&&◌, some, Bytes, List,
  [], ◌∷◌, length, ltb, ◌==◌, arith, Bool-cases, Option-cases,
}
use ovpn2ss.Aead.Crypto.{Crypto}
use ovpn2ss.Lwip.{Lwip}
use ovpn2ss.TcpRelay.State.{Relay, client_queue_low_water}
use ovpn2ss.TcpRelay.Closing.{close}
use ovpn2ss.TcpRelay.Downstream.{flush_to_client, ack_deferred, pop_client, on_write}
use ovpn2ss.TcpRelay.Order.{
  total, outgoing, ack_deferred-SameQueue, on_write-outgoing, on_write-IsQueued,
}
use ovpn2ss.TcpRelay.Window.{ack_loop_lem}
use ovpn2ss.TcpRelay.Events.{on_written, on_write_failed}
use ovpn2ss.TcpRelay.Sound.{salt_room, salt_room_le, IsActive, Carries, IsSound}
use ovpn2ss.TcpRelay.Delivery.{start_write-Started, start_write-IsActive}
use ovpn2ss.TcpRelay.Received.{IsRight}

module _ (l : Lwip) where
  -- Nothing is given back to lwIP, or all that is held back.
  Acked : Relay l → Relay l → Type 0
  Acked r r' =
      ((r'.recved ≡ r.recved) × (r'.deferred_tcp_recved ≡ r.deferred_tcp_recved))
      ⊎ ((r'.recved ≡ r.recved + r.deferred_tcp_recved)
          × (r'.deferred_tcp_recved ≡ 0)
          × (r.client_queue_bytes < client_queue_low_water))

  ack_deferred-Acked : (r : Relay l) → r.deferred_tcp_recved < 2 ^ 64 → Acked r (ack_deferred l r)
  unfolding ack_deferred Acked
  ack_deferred-Acked r h = elim (Option-cases r.pcb) [
    | inl e ↦ rw (e, ack_deferred) (inl (refl, refl))
    | inr (p, e) ↦
        let all = ack_loop_lem l r.deferred_tcp_recved p r (omega arith) h in
        elim (Bool-cases
          (ltb r.client_queue_bytes client_queue_low_water && not (r.deferred_tcp_recved == 0))) [
            | inl due ↦ inr (ground arith)
            | inr early ↦ inl (ground arith)
          ]
  ]

  -- What the completion of a write leaves of a session.
  record Finished (front : Bytes) (r r' : Relay l) : Type 0 where
    salted : r'.sent_response_salt ≡ r.sent_response_salt
    crypto : r'.crypto ≡ r.crypto
    closing : r'.closing ≡ r.closing
    active : IsActive l r'
    size : total r'.pending_client + length front ≡ total r.pending_client
    acked : Acked (pop_client l (length front) r) r'

  on_write-Finished :
      (front : Bytes) (rest : List Bytes) (r : Relay l)
      → r.pending_client ≡ front ∷ rest
      → r.deferred_tcp_recved < 2 ^ 64
      → Finished front r (on_write l (some (length front)) r)
  unfolding on_write flush_to_client Acked
  on_write-Finished front rest r e h =
      let r1 = pop_client l (length front) r in
      let r2 = ack_deferred l r1 in
      let k = ack_deferred-SameQueue l r1 in
      let s = start_write-Started l r2.pending_client r2 in
      let a = ack_deferred-Acked r1 h in
      record {
        salted = s.salted ∙ k.same_salted;
        crypto = s.crypto ∙ k.same_crypto;
        closing = s.closing ∙ k.same_closing;
        active = start_write-IsActive l r2.pending_client r2 refl;
        size = ap (λ q. total q + length front) (s.pending ∙ k.same_pending) ∙ rw e (omega arith);
        acked = ground (arith, s.recved, s.deferred);
      }

module _ (c : Crypto) (l : Lwip) (key : Bytes) where
  Finished-Carries :
      (front stream : Bytes) (r r' : Relay l)
      → Finished l front r r'
      → outgoing l r' ≡ outgoing l r
      → Carries c l key r stream
      → Carries c l key r' stream
  Finished-Carries front stream r r' k o (inl (s, e, f)) = inl (k.salted ∙ s, o ∙ e, f)
  Finished-Carries front stream r r' k o (inr v) = inr (record {
    salt = v.salt;
    chunks = v.chunks;
    client = v.client;
    last = v.last;
    salted = k.salted ∙ v.salted;
    out_is = o ∙ v.out_is;
    takes = v.takes;
    opens = v.opens;
    synced = rw k.crypto v.synced;
  })

  on_write-IsSound :
      (front stream : Bytes) (rest : List Bytes) (r : Relay l)
      → r.writing_client ≡ true
      → r.pending_client ≡ front ∷ rest
      → IsSound c l key r stream
      → IsSound c l key (on_write l (some (length front)) r) stream
  unfolding Acked
  on_write-IsSound front stream rest r w e v =
      let k = on_write-Finished l front rest r e (omega (arith, v.held)) in
      let bounded = v.bounded in
      let counted = v.queued.counted in
      let window = v.window in
      let held = v.held in
      let acked = k.acked in
      let size = k.size in
      let room = ap salt_room k.salted in
      let small = salt_room_le r.sent_response_salt in
      record {
        queued = on_write-IsQueued l front rest r e v.queued;
        active = k.active;
        carries =
            Finished-Carries front stream r _ k (on_write-outgoing l front rest r w e) v.carries;
        master = ap (λ s. s.master_key) k.crypto ∙ v.master;
        window = ground arith;
        held = ground arith;
        bounded = elim acked [ inl (a, b) ↦ omega arith | inr (a, b, low) ↦ omega arith ];
      }

  on_written_busy :
      (front : Bytes) (rest : List Bytes) (r : Relay l)
      → r.writing_client ≡ true
      → on_written l (front ∷ rest) r ≡ on_write l (some (length front)) r
  unfolding on_written
  on_written_busy front rest r e = rw e refl

  on_written_idle :
      (front : Bytes) (rest : List Bytes) (r : Relay l)
      → r.writing_client ≡ false
      → on_written l (front ∷ rest) r ≡ r
  unfolding on_written
  on_written_idle front rest r e = ground arith

  on_written_empty : (r : Relay l) → on_written l [] r ≡ r
  unfolding on_written
  on_written_empty r = refl

  on_write-closing : (n : ℕ) (r : Relay l) → (on_write l (some n) r).closing ≡ r.closing
  unfolding on_write flush_to_client
  on_write-closing n r =
      let r1 = pop_client l n r in
      let r2 = ack_deferred l r1 in
      (start_write-Started l r2.pending_client r2).closing
      ∙ (ack_deferred-SameQueue l r1).same_closing

  on_write-IsRight :
      (front stream : Bytes) (rest : List Bytes) (r : Relay l)
      → r.writing_client ≡ true
      → r.pending_client ≡ front ∷ rest
      → IsRight c l key r stream
      → IsRight c l key (on_write l (some (length front)) r) stream
  on_write-IsRight front stream rest r w e (inl shut) =
      inl (on_write-closing (length front) r ∙ shut)
  on_write-IsRight front stream rest r w e (inr v) =
      inr (on_write-IsSound front stream rest r w e v)

  pub on_written-IsRight :
      (q : List Bytes) (stream : Bytes) (r : Relay l)
      → r.pending_client ≡ q
      → IsRight c l key r stream
      → IsRight c l key (on_written l q r) stream
  on_written-IsRight [] stream r e right = rw (on_written_empty r) right
  on_written-IsRight (front ∷ rest) stream r e right = elim (Bool-cases r.writing_client) [
    | inl w ↦ rw (on_written_busy front rest r w) (on_write-IsRight front stream rest r w e right)
    | inr w ↦ rw (on_written_idle front rest r w) right
  ]

  on_write_failed-cases :
      (r : Relay l) → (on_write_failed l r ≡ r) ⊎ ((on_write_failed l r).closing ≡ true)
  unfolding on_write_failed close
  on_write_failed-cases r = ground arith

  pub on_write_failed-IsRight :
      (stream : Bytes) (r : Relay l)
      → IsRight c l key r stream
      → IsRight c l key (on_write_failed l r) stream
  on_write_failed-IsRight stream r right = elim (on_write_failed-cases r) [
    | inl e ↦ rw e right
    | inr shut ↦ inl shut
  ]
