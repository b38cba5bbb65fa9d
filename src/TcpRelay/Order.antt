-- ===== src/TcpRelay/Order.antt =====
-- The answers reach the client in order, each exactly once, and the queue's byte count is right.
use mathlib.Core.List.{append_assoc}
use ovpn2ss.Common.{
  ℕ, zero, suc, ◌+◌, ◌%◌, ◌^◌, ◌≡◌, refl, sym, ap, ◌∙◌, true, false, Option, some, inl, inr, Bytes,
  List, [], ◌∷◌, ◌++◌, if◌then◌else◌, ◌&&◌, length, drop, arith, is_empty, Bool-cases, Option-cases,
}
use ovpn2ss.Common.Outcome.{ok}
use ovpn2ss.Aead.Crypto.{Crypto, IsCrypto}
use ovpn2ss.Aead.Session.{Session, encrypt_tcp_chunk, decrypt_tcp_chunk}
use ovpn2ss.Aead.TcpChunk.{Synced, decrypt_tcp_chunk-encrypt_tcp_chunk}
use ovpn2ss.Lwip.{Lwip, err_ok}
use ovpn2ss.TcpRelay.State.{Relay}
use ovpn2ss.TcpRelay.Downstream.{
  flush_to_client, start_write, ack_deferred, ack_loop, ack_round, pop_client, on_write,
  push_client, enqueue_client_payload, on_recv, settle,
}

abbrev pub total : List Bytes → ℕ
total [] = 0
total (x ∷ xs) = length x + total xs

pub total-append : (xs ys : List Bytes) → total (xs ++ ys) ≡ total xs + total ys
total-append [] ys = omega arith
total-append (x ∷ xs) ys = omega (arith, total-append xs ys)

is_empty-concat : (q : List Bytes) (b : Bytes) → is_empty (q ++ b ∷ []) ≡ false
is_empty-concat [] b = refl
is_empty-concat (x ∷ q) b = refl

module _ (l : Lwip) where
  -- The buffers that are still to be given to the socket: the front of the queue stays in it while
  -- it is being written.
  abbrev pub waiting : Relay l → List Bytes
  waiting r = if r.writing_client then drop 1 r.pending_client else r.pending_client

  -- All buffers for the client, in order: those given to the socket and those that wait.
  abbrev pub outgoing : Relay l → List Bytes
  outgoing r = r.writes ++ waiting r

  -- The byte count is that of the queue, in std::size_t; a write in flight is that of its front.
  pub record IsQueued (r : Relay l) : Type 0 where
    pub counted : r.client_queue_bytes ≡ total r.pending_client % 2 ^ 64
    pub busy : (r.writing_client && is_empty r.pending_client) ≡ false

  start_write-outgoing :
      (q : List Bytes) (r : Relay l)
      → r.pending_client ≡ q
      → outgoing (start_write l q r) ≡ outgoing r
  unfolding start_write
  start_write-outgoing [] r e = refl
  start_write-outgoing (x ∷ q) r e = ground (arith, append_assoc r.writes (x ∷ []) q)

  pub flush_to_client-outgoing : (r : Relay l) → outgoing (flush_to_client l r) ≡ outgoing r
  unfolding flush_to_client
  flush_to_client-outgoing r = start_write-outgoing r.pending_client r refl

  -- What the calls of tcp_recved leave alone.
  pub record SameQueue (r r' : Relay l) : Type 0 where
    pub same_writes : r'.writes ≡ r.writes
    pub same_writing : r'.writing_client ≡ r.writing_client
    pub same_pending : r'.pending_client ≡ r.pending_client
    pub same_count : r'.client_queue_bytes ≡ r.client_queue_bytes
    pub same_crypto : r'.crypto ≡ r.crypto
    pub same_salted : r'.sent_response_salt ≡ r.sent_response_salt
    pub same_closing : r'.closing ≡ r.closing

  ack_loop-SameQueue : (fuel p : ℕ) (r : Relay l) → SameQueue r (ack_loop l fuel p r)
  unfolding ack_loop
  ack_loop-SameQueue zero p r = ground arith
  ack_loop-SameQueue (suc fuel) p r = ground (arith, ack_loop-SameQueue fuel p (ack_round l p r))

  pub ack_deferred-SameQueue : (r : Relay l) → SameQueue r (ack_deferred l r)
  unfolding ack_deferred
  ack_deferred-SameQueue r = elim (Option-cases r.pcb) [
    | inl e ↦ rw (e, ack_deferred) (ground arith)
    | inr (p, e) ↦ ground (arith, ack_loop-SameQueue r.deferred_tcp_recved p r)
  ]

  pub SameQueue-outgoing : (r r' : Relay l) → SameQueue r r' → outgoing r' ≡ outgoing r
  SameQueue-outgoing r r' k = rw (k.same_writes, k.same_writing, k.same_pending)

  -- When a write of the whole front of the client's queue completes, nothing of what is for the
  -- client is lost, repeated or reordered: the buffers given to the socket and those that wait are
  -- the same sequence.
  pub on_write-outgoing :
      (front : Bytes) (rest : List Bytes) (r : Relay l)
      → r.writing_client ≡ true
      → r.pending_client ≡ front ∷ rest
      → outgoing (on_write l (some (length front)) r) ≡ outgoing r
  unfolding on_write
  on_write-outgoing front rest r w e =
      let r1 = pop_client l (length front) r in
      flush_to_client-outgoing (ack_deferred l r1)
      ∙ SameQueue-outgoing r1 (ack_deferred l r1) (ack_deferred-SameQueue r1)
      ∙ ground arith

  pub start_write-IsQueued :
      (q : List Bytes) (r : Relay l)
      → r.pending_client ≡ q
      → IsQueued r
      → IsQueued (start_write l q r)
  unfolding start_write
  start_write-IsQueued [] r e v = v
  start_write-IsQueued (x ∷ q) r e v = ground (arith, v.counted, v.busy)

  pop_client-counted :
      (front : Bytes) (rest : List Bytes) (r : Relay l)
      → r.pending_client ≡ front ∷ rest
      → IsQueued r
      → (pop_client l (length front) r).client_queue_bytes
        ≡ total (pop_client l (length front) r).pending_client % 2 ^ 64
  pop_client-counted front rest r e v =
      let now : r.client_queue_bytes ≡ (length front + total rest) % 2 ^ 64 =
        v.counted ∙ ap (λ q. total q % 2 ^ 64) e in
      rw e (omega arith)

  -- When a write of the whole front completes, the byte count of the queue stays right, and a write
  -- is in flight only with a buffer at the front.
  pub on_write-IsQueued :
      (front : Bytes) (rest : List Bytes) (r : Relay l)
      → r.pending_client ≡ front ∷ rest
      → IsQueued r
      → IsQueued (on_write l (some (length front)) r)
  unfolding on_write flush_to_client
  on_write-IsQueued front rest r e v =
      let r1 = pop_client l (length front) r in
      let k = ack_deferred-SameQueue r1 in
      start_write-IsQueued _ (ack_deferred l r1) refl (record {
        busy = rw k.same_writing;
        counted =
            k.same_count
            ∙ pop_client-counted front rest r e v
            ∙ ap (λ q. total q % 2 ^ 64) (sym k.same_pending);
      })

  drop-concat :
      (q : List Bytes) (b : Bytes) → is_empty q ≡ false → drop 1 (q ++ b ∷ []) ≡ drop 1 q ++ b ∷ []
  drop-concat [] b h = cc
  drop-concat (x ∷ q) b h = refl

  pub push_client-outgoing :
      (b : Bytes) (r : Relay l) → IsQueued r → outgoing (push_client l b r) ≡ outgoing r ++ b ∷ []
  push_client-outgoing b r v = elim (Bool-cases r.writing_client) [
    | inl w ↦ ground (
      arith,
      drop-concat r.pending_client b (rw w at v.busy),
      append_assoc r.writes (drop 1 r.pending_client) (b ∷ []),
    )
    | inr w ↦ ground (arith, append_assoc r.writes r.pending_client (b ∷ []))
  ]

  pub push_client-IsQueued : (b : Bytes) (r : Relay l) → IsQueued r → IsQueued (push_client l b r)
  push_client-IsQueued b r v = record {
    counted = omega (arith, v.counted, total-append r.pending_client (b ∷ []));
    busy = ground (arith, is_empty-concat r.pending_client b);
  }

  pub start_write-crypto : (q : List Bytes) (r : Relay l) → (start_write l q r).crypto ≡ r.crypto
  unfolding start_write
  start_write-crypto [] r = refl
  start_write-crypto (x ∷ q) r = ground arith

  pub SameQueue-IsQueued : (r r' : Relay l) → SameQueue r r' → IsQueued r → IsQueued r'
  SameQueue-IsQueued r r' k v = record {
    counted = k.same_count ∙ v.counted ∙ ap (λ q. total q % 2 ^ 64) (sym k.same_pending);
    busy = rw (k.same_writing, k.same_pending) v.busy;
  }

module _ (c : Crypto) (l : Lwip) where
  -- The state behind enqueue_client_payload, the salt being sent.
  abbrev enqueued : Bytes → Session → Relay l → Relay l
  enqueued out s r = flush_to_client l (push_client l out (record r { crypto = s }))

  enqueue_client_payload_lem :
      (draw : Option Bytes) (bytes out : Bytes) (s : Session) (r : Relay l)
      → r.sent_response_salt ≡ true
      → is_empty bytes ≡ false
      → encrypt_tcp_chunk c bytes r.crypto ≡ (s, ok out)
      → enqueue_client_payload c l draw bytes r ≡ (enqueued out s r, ok tt)
  unfolding enqueue_client_payload
  enqueue_client_payload_lem draw bytes out s r salted full e = ground arith

  pub settle-SameQueue : (p n : ℕ) (r : Relay l) → SameQueue l r (settle c l p n (r, ok tt))
  settle-SameQueue p n r = ground arith

  -- A payload of the target that is sealed without an error, once the salt is sent and with the
  -- queue's count right: the client is given one more chunk, behind all that it was or will be
  -- given before; whoever is in step with the session opens that chunk to the payload, whatever
  -- follows, and is in step again; and the queue's count stays right.
  pub on_recv_delivers :
      (draw : Option Bytes) (p : ℕ) (bytes out rest : Bytes) (s : Session) (r : Relay l)
      (client : Session)
      → IsCrypto c
      → IsQueued l r
      → r.sent_response_salt ≡ true
      → is_empty bytes ≡ false
      → Synced r.crypto client
      → encrypt_tcp_chunk c bytes r.crypto ≡ (s, ok out)
      → let r' = on_recv c l draw p (some bytes) err_ok r in
        IsQueued l r'
        × (outgoing l r' ≡ outgoing l r ++ out ∷ [])
        × ((client' : Session) × (decrypt_tcp_chunk c (out ++ rest) client
              ≡ (client', ok (some (bytes, rest))))
            × Synced r'.crypto client')
  unfolding on_recv flush_to_client
  on_recv_delivers draw p bytes out rest s r client v q salted full y e =
      let r1 = push_client l out (record r { crypto = s }) in
      let r2 = enqueued out s r in
      let k = settle-SameQueue p (length bytes) r2 in
      let q0 : IsQueued l (record r { crypto = s }) = record {
        counted = q.counted;
        busy = q.busy;
      } in
      let q1 = push_client-IsQueued l out (record r { crypto = s }) q0 in
      rw (enqueue_client_payload_lem draw bytes out s r salted full e) (
        SameQueue-IsQueued l r2 _ k (start_write-IsQueued l r1.pending_client r1 refl q1),
        SameQueue-outgoing l r2 _ k
            ∙ flush_to_client-outgoing l r1
            ∙ push_client-outgoing l out (record r { crypto = s }) q0,
        let (client', d, y') =
              decrypt_tcp_chunk-encrypt_tcp_chunk c bytes out rest r.crypto s client v y e in
            (client', d, rw (k.same_crypto, start_write-crypto l r1.pending_client r1) y'),
      )
