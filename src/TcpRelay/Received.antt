-- ===== src/TcpRelay/Received.antt =====
-- on_recv keeps a session sound, or closes it.
use ovpn2ss.Common.{
  ℕ, ◌+◌, ◌*◌, ◌≤◌, ◌≡◌, refl, ap, ◌∙◌, ◌⊎◌, inl, inr, Bool, true, false, Option, none, some, Bytes,
  [], ◌∷◌, ◌++◌, length, is_empty, arith, Bool-cases, length-append, append-nil,
}
use ovpn2ss.Common.Outcome.{Error, Result, ok, err, Result-cases}
use ovpn2ss.Aead.Crypto.{Crypto, IsCrypto}
use ovpn2ss.Aead.Session.{encrypt_tcp_chunk}
use ovpn2ss.Aead.TcpChunk.{encrypt_tcp_chunk-Chunk}
use ovpn2ss.Lwip.{Lwip, Err}
use ovpn2ss.TcpRelay.State.{Relay, client_queue_high_water}
use ovpn2ss.TcpRelay.Closing.{is_ok, close}
use ovpn2ss.TcpRelay.Downstream.{
  flush_to_client, push_client, send_salt, send_chunk, and_then, enqueue_client_payload, settle,
  on_recv,
}
use ovpn2ss.TcpRelay.Order.{
  total, SameQueue, SameQueue-outgoing, SameQueue-IsQueued, settle-SameQueue,
}
use ovpn2ss.TcpRelay.Events.{tcp_wnd, received, delivered_by, IsDrawn}
use ovpn2ss.TcpRelay.Keeps.{Keeps, close-Keeps, handle_remote_fin-Keeps}
use ovpn2ss.TcpRelay.Sound.{IsActive, Sent, IsSound, Grown, Keeps-IsSound, salt_room}
use ovpn2ss.TcpRelay.Delivery.{
  start_write-Started, send_chunk_ok, chunk-Grown, chunked-IsActive, Salted, send_salt-Salted,
}

module _ (c : Crypto) (l : Lwip) (key : Bytes) where
  -- A session is closing, or it is sound.
  abbrev pub IsRight : Relay l → Bytes → Type 0
  IsRight r stream = (r.closing ≡ true) ⊎ IsSound c l key r stream

  pub SameQueue-Sent :
      (r r' : Relay l) (stream : Bytes)
      → SameQueue l r r'
      → Sent c l key r stream
      → Sent c l key r' stream
  SameQueue-Sent r r' stream k v = record {
    salt = v.salt;
    chunks = v.chunks;
    client = v.client;
    last = v.last;
    salted = k.same_salted ∙ v.salted;
    out_is = SameQueue-outgoing l r r' k ∙ v.out_is;
    takes = v.takes;
    opens = v.opens;
    synced = rw k.same_crypto v.synced;
  }

  -- What a payload adds to the queue: the salt, if it was not sent, and the chunk.
  abbrev Room : Bool → ℕ → Type 0
  Room salted room = ((salted ≡ true) × (room ≡ 0)) ⊎ ((salted ≡ false) × (room ≡ 32))

  record Enqueued (r r' : Relay l) (stream bytes : Bytes) : Type 0 where
    room : ℕ
    room_is : Room r.sent_response_salt room
    fits : length bytes ≤ 0x3fff
    active : IsActive l r'
    grown : Grown c l key r r' (stream ++ bytes) (room + (length bytes + 34))

  send_chunk_failed :
      (bytes : Bytes) (r : Relay l) (x : Error)
      → (encrypt_tcp_chunk c bytes r.crypto).1 ≡ err x
      → (send_chunk c l bytes r).1 ≡ err x
  unfolding send_chunk
  send_chunk_failed bytes r x e = rw (e, send_chunk) refl

  send_chunk-Enqueued :
      (bytes stream : Bytes) (r r1 : Relay l) (room : ℕ) (u : Unit {0})
      → IsCrypto c
      → Room r.sent_response_salt room
      → Grown c l key r r1 stream room
      → (send_chunk c l bytes r1).1 ≡ ok u
      → Enqueued r (send_chunk c l bytes r1).0 stream bytes
  send_chunk-Enqueued bytes stream r r1 room u v h g e =
      elim (Result-cases (encrypt_tcp_chunk c bytes r1.crypto).1) [
        | inr (x, f) ↦ let failed = send_chunk_failed bytes r1 x f in cc
        | inl (out, f) ↦
            let s = (encrypt_tcp_chunk c bytes r1.crypto).0 in
            let whole : encrypt_tcp_chunk c bytes r1.crypto ≡ (s, ok out) = ap (λ a. (s, a)) f in
            rw (send_chunk_ok c l key bytes out r1 f) (record {
              room = room;
              room_is = h;
              fits = (encrypt_tcp_chunk-Chunk c bytes out r1.crypto s v whole).fits;
              active = chunked-IsActive c l key out s r1;
              grown = chunk-Grown c l key bytes out stream s r r1 room v g whole;
            })
      ]

  and_then-Enqueued :
      (bytes stream : Bytes) (r : Relay l) (m : Relay l × Result (Unit {0})) (u : Unit {0})
      → IsCrypto c
      → ((w : Unit {0}) → m.1 ≡ ok w → Salted c l key r m.0 stream)
      → (and_then c l m (send_chunk c l bytes)).1 ≡ ok u
      → Enqueued r (and_then c l m (send_chunk c l bytes)).0 stream bytes
  and_then-Enqueued bytes stream r (r1, err x) u v h e = cc
  and_then-Enqueued bytes stream r (r1, ok w) u v h e = elim (h w refl) [
    | inl (salted, g) ↦ send_chunk-Enqueued bytes stream r r1 0 u v (inl (salted, refl)) g e
    | inr (fresh, g) ↦ send_chunk-Enqueued bytes stream r r1 32 u v (inr (fresh, refl)) g e
  ]

  -- The queue's size behind a payload that was sealed.
  Enqueued-size :
      (r r' : Relay l) (stream bytes : Bytes)
      → is_empty bytes ≡ false
      → IsSound c l key r stream
      → Enqueued r r' stream bytes
      → r.deferred_tcp_recved + length bytes ≤ tcp_wnd
      → (r'.client_queue_bytes ≡ total r'.pending_client)
        × (total r'.pending_client
            ≤ client_queue_high_water
              + salt_room r'.sent_response_salt
              + 35 * (r.deferred_tcp_recved + length bytes))
  Enqueued-size r r' stream [] full v n h = cc
  Enqueued-size r r' stream (b ∷ bytes) full v n h =
      let size = n.grown.size in
      let counted = n.grown.queued.counted in
      let sent_room : salt_room r'.sent_response_salt ≡ 32 = ap salt_room n.grown.sent.salted in
      let fits = n.fits in
      let held = v.held in
      let bounded = v.bounded in
      elim n.room_is [
        | inl (s, e) ↦
            let old_room : salt_room r.sent_response_salt ≡ 32 = ap salt_room s in omega arith
        | inr (s, e) ↦
            let old_room : salt_room r.sent_response_salt ≡ 0 = ap salt_room s in omega arith
      ]

  settled-IsSound :
      (p : ℕ) (r r' : Relay l) (stream bytes : Bytes)
      → is_empty bytes ≡ false
      → IsSound c l key r stream
      → Enqueued r r' stream bytes
      → r.deferred_tcp_recved + length bytes ≤ tcp_wnd
      → IsSound c l key (settle c l p (length bytes) (r', ok tt)) (stream ++ bytes)
  settled-IsSound p r r' stream bytes full v n h =
      let (counted, bounded) = Enqueued-size r r' stream bytes full v n h in
      let k = settle-SameQueue c l p (length bytes) r' in
      let deferred = n.grown.deferred in
      let recved = n.grown.recved in
      let window = v.window in
      let longer = length-append stream bytes in
      record {
        queued = SameQueue-IsQueued l r' _ k n.grown.queued;
        active = rw (k.same_writing, k.same_pending) n.active;
        carries = inr (SameQueue-Sent r' _ (stream ++ bytes) k n.grown.sent);
        master = ap (λ s. s.master_key) k.same_crypto ∙ n.grown.master;
        window = ground arith;
        held = ground (arith, v.held);
        bounded = ground arith;
      }

  enqueue_full :
      (draw : Option Bytes) (bytes : Bytes) (r : Relay l)
      → is_empty bytes ≡ false
      → enqueue_client_payload c l draw bytes r
        ≡ and_then c l (send_salt c l draw r) (send_chunk c l bytes)
  unfolding enqueue_client_payload
  enqueue_full draw bytes r e = ground arith

  enqueue_empty :
      (draw : Option Bytes) (bytes : Bytes) (r : Relay l)
      → is_empty bytes ≡ true
      → enqueue_client_payload c l draw bytes r ≡ (r, ok tt)
  unfolding enqueue_client_payload
  enqueue_empty draw bytes r e = ground arith

  settle_closes :
      (p n : ℕ) (m : Relay l × Result (Unit {0})) (x : Error)
      → m.1 ≡ err x
      → (settle c l p n m).closing ≡ true
  unfolding close
  settle_closes p n (r, ok u) x e = cc
  settle_closes p n (r, err y) x e = ground arith

  settle_nothing-Keeps :
      (p : ℕ) (r : Relay l)
      → r.deferred_tcp_recved ≤ tcp_wnd
      → Keeps l r (settle c l p 0 (r, ok tt))
  settle_nothing-Keeps p r h = ground arith

  send_chunk-closing :
      (bytes : Bytes) (r : Relay l) → (send_chunk c l bytes r).0.closing ≡ r.closing
  unfolding send_chunk flush_to_client
  send_chunk-closing bytes r = elim (Result-cases (encrypt_tcp_chunk c bytes r.crypto).1) [
    | inr (x, e) ↦ rw (e, send_chunk) refl
    | inl (out, e) ↦
        let r2 = push_client l out (record r { crypto = (encrypt_tcp_chunk c bytes r.crypto).0 }) in
        rw (e, send_chunk) (start_write-Started l r2.pending_client r2).closing
  ]

  send_salt-closing :
      (draw : Option Bytes) (r : Relay l) → (send_salt c l draw r).0.closing ≡ r.closing
  unfolding send_salt
  send_salt-closing draw r = ground arith

  and_then-closing :
      (bytes : Bytes) (m : Relay l × Result (Unit {0}))
      → (and_then c l m (send_chunk c l bytes)).0.closing ≡ m.0.closing
  and_then-closing bytes (r, ok u) = send_chunk-closing bytes r
  and_then-closing bytes (r, err x) = refl

  settle-closing :
      (p n : ℕ) (m : Relay l × Result (Unit {0}))
      → m.0.closing ≡ true
      → (settle c l p n m).closing ≡ true
  unfolding close
  settle-closing p n (r, ok u) e = ground arith
  settle-closing p n (r, err x) e = ground arith

  settle_full-IsRight :
      (draw : Option Bytes) (p : ℕ) (bytes stream : Bytes) (r : Relay l)
      → IsCrypto c
      → IsDrawn draw
      → is_empty bytes ≡ false
      → IsRight r stream
      → r.deferred_tcp_recved + length bytes ≤ tcp_wnd
      → IsRight
          (settle c l p (length bytes) (and_then c l (send_salt c l draw r) (send_chunk c l bytes)))
          (stream ++ bytes)
  settle_full-IsRight draw p bytes stream r v d full (inl shut) h = inl (
      settle-closing p (length bytes) (and_then c l (send_salt c l draw r) (send_chunk c l bytes))
        (and_then-closing bytes (send_salt c l draw r) ∙ send_salt-closing draw r ∙ shut))
  settle_full-IsRight draw p bytes stream r v d full (inr sound) h =
      let m = and_then c l (send_salt c l draw r) (send_chunk c l bytes) in
      elim (Result-cases m.1) [
        | inr (x, e) ↦ inl (settle_closes p (length bytes) m x e)
        | inl (u, e) ↦
            let whole : m ≡ (m.0, ok tt) = ap (λ a. (m.0, a)) e in
            let n =
              and_then-Enqueued bytes stream r (send_salt c l draw r) u v
                (λ w f. send_salt-Salted c l key draw r stream w d sound f) e in
            inr (rw whole (settled-IsSound p r m.0 stream bytes full sound n h))
      ]

  pub Keeps-IsRight :
      (r r' : Relay l) (stream : Bytes) → Keeps l r r' → IsRight r stream → IsRight r' stream
  Keeps-IsRight r r' stream k (inl shut) = inl (ground (arith, k.closes))
  Keeps-IsRight r r' stream k (inr v) = inr (Keeps-IsSound c l key r r' stream k v)

  settle-IsRight :
      (draw : Option Bytes) (p : ℕ) (bytes stream : Bytes) (r : Relay l)
      → IsCrypto c
      → IsDrawn draw
      → IsRight r stream
      → r.deferred_tcp_recved + length bytes ≤ tcp_wnd
      → IsRight
          (settle c l p (length bytes) (enqueue_client_payload c l draw bytes r))
          (stream ++ bytes)
  settle-IsRight draw p [] stream r v d right h =
      let same = append-nil stream in
      rw (enqueue_empty draw [] r refl, same)
        (Keeps-IsRight r (settle c l p 0 (r, ok tt)) stream (settle_nothing-Keeps p r (omega arith))
          right)
  settle-IsRight draw p (b ∷ bytes) stream r v d right h =
      rw (enqueue_full draw (b ∷ bytes) r refl)
        (settle_full-IsRight draw p (b ∷ bytes) stream r v d refl right h)

  pub on_recv-IsRight :
      (draw payload : Option Bytes) (p : ℕ) (e : Err) (stream : Bytes) (r : Relay l)
      → IsCrypto c
      → IsDrawn draw
      → IsRight r stream
      → r.deferred_tcp_recved + length (delivered_by l (received draw payload e) (some p)) ≤ tcp_wnd
      → IsRight
          (on_recv c l draw p payload e r)
          (stream ++ delivered_by l (received draw payload e) (some p))
  unfolding on_recv
  on_recv-IsRight draw none p e stream r v d right h = elim (Bool-cases (is_ok e)) [
    | inl good ↦
        rw (good, append-nil stream) (Keeps-IsRight r _ stream (handle_remote_fin-Keeps l r) right)
    | inr bad ↦ rw (bad, append-nil stream) (Keeps-IsRight r _ stream (close-Keeps l r) right)
  ]
  on_recv-IsRight draw (some bytes) p e stream r v d right h = elim (Bool-cases (is_ok e)) [
    | inl good ↦ rw good (settle-IsRight draw p bytes stream r v d right (rw good at h))
    | inr bad ↦ rw (bad, append-nil stream) (Keeps-IsRight r _ stream (close-Keeps l r) right)
  ]
