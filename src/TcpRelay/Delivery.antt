-- ===== src/TcpRelay/Delivery.antt =====
-- A payload that lwIP delivers keeps a session sound.
use ovpn2ss.Common.{
  ℕ, ◌+◌, ◌≡◌, refl, sym, ap, ◌∙◌, ◌⊎◌, inl, inr, true, false, Option, some, Bytes, List, [], ◌∷◌,
  ◌++◌, length, arith, Bool-cases,
}
use ovpn2ss.Common.Outcome.{Error, ok, err, Result-cases}
use ovpn2ss.Aead.Crypto.{Crypto, IsCrypto}
use ovpn2ss.Aead.Session.{Session, client_salt, encrypt_tcp_chunk}
use ovpn2ss.Aead.TcpChunk.{
  followed, decrypt_tcp_chunk-followed, followed-Synced, encrypt_tcp_chunk-Chunk,
  length-encrypt_tcp_chunk,
}
use ovpn2ss.Lwip.{Lwip}
use ovpn2ss.TcpRelay.State.{Relay}
use ovpn2ss.TcpRelay.Downstream.{start_write, push_client, flush_to_client, send_salt, send_chunk}
use ovpn2ss.TcpRelay.Order.{
  total, total-append, outgoing, IsQueued, flush_to_client-outgoing, start_write-IsQueued,
  push_client-outgoing, push_client-IsQueued,
}
use ovpn2ss.TcpRelay.Events.{IsDrawn}
use ovpn2ss.TcpRelay.Opening.{Opens-append}
use ovpn2ss.TcpRelay.Sound.{IsActive, Sent, IsSound, Grown, salt_pushed, push_salt-Grown}

module _ (l : Lwip) where
  -- What start_write leaves alone.
  pub record Started (r r' : Relay l) : Type 0 where
    pub pending : r'.pending_client ≡ r.pending_client
    pub salted : r'.sent_response_salt ≡ r.sent_response_salt
    pub crypto : r'.crypto ≡ r.crypto
    pub recved : r'.recved ≡ r.recved
    pub deferred : r'.deferred_tcp_recved ≡ r.deferred_tcp_recved
    pub closing : r'.closing ≡ r.closing

  pub start_write-Started : (q : List Bytes) (r : Relay l) → Started r (start_write l q r)
  unfolding start_write
  start_write-Started [] r = ground arith
  start_write-Started (x ∷ q) r = ground arith

  pub start_write-IsActive :
      (q : List Bytes) (r : Relay l) → r.pending_client ≡ q → IsActive l (start_write l q r)
  unfolding start_write
  start_write-IsActive [] r e = ground arith
  start_write-IsActive (x ∷ q) r e = ground arith

module _ (c : Crypto) (l : Lwip) (key : Bytes) where
  salted-Sent :
      (r : Relay l) (stream : Bytes)
      → IsSound c l key r stream
      → r.sent_response_salt ≡ true
      → Sent c l key r stream
  salted-Sent r stream v e = elim v.carries [ inl (unsent, o, none_yet) ↦ cc | inr sent ↦ sent ]

  unsalted_empty :
      (r : Relay l) (stream : Bytes)
      → IsSound c l key r stream
      → r.sent_response_salt ≡ false
      → (outgoing l r ≡ []) × (stream ≡ [])
  unsalted_empty r stream v e = elim v.carries [
    | inl (unsent, o, none_yet) ↦ (o, none_yet)
    | inr sent ↦ let salted = sent.salted in cc
  ]

  Grown-refl :
      (r : Relay l) (stream : Bytes)
      → IsSound c l key r stream
      → r.sent_response_salt ≡ true
      → Grown c l key r r stream 0
  Grown-refl r stream v e = record {
    queued = v.queued;
    sent = salted-Sent r stream v e;
    master = v.master;
    recved = refl;
    deferred = refl;
    size = omega arith;
  }

  send_salt_again :
      (draw : Option Bytes) (r : Relay l)
      → r.sent_response_salt ≡ true
      → send_salt c l draw r ≡ (r, ok tt)
  unfolding send_salt
  send_salt_again draw r e = ground arith

  send_salt_first :
      (draw : Option Bytes) (r : Relay l) (salt : Bytes)
      → r.sent_response_salt ≡ false
      → (client_salt c draw r.crypto).1 ≡ ok salt
      → send_salt c l draw r ≡ (salt_pushed c l key salt (client_salt c draw r.crypto).0 r, ok tt)
  unfolding send_salt
  send_salt_first draw r salt e f = ground arith

  client_salt_drawn :
      (draw : Option Bytes) (s : Session) (sent : Bytes)
      → (client_salt c draw s).1 ≡ ok sent
      → draw ≡ some sent
  unfolding client_salt
  client_salt_drawn draw s sent e = ground arith

  send_salt_failed :
      (draw : Option Bytes) (r : Relay l) (x : Error)
      → r.sent_response_salt ≡ false
      → (client_salt c draw r.crypto).1 ≡ err x
      → (send_salt c l draw r).1 ≡ err x
  unfolding send_salt
  send_salt_failed draw r x e f = ground arith

  -- The first answer sends the salt of 32 bytes, each later one finds it sent.
  abbrev pub Salted : Relay l → Relay l → Bytes → Type 0
  Salted r r' stream =
      ((r.sent_response_salt ≡ true) × Grown c l key r r' stream 0)
      ⊎ ((r.sent_response_salt ≡ false) × Grown c l key r r' stream 32)

  pub send_salt-Salted :
      (draw : Option Bytes) (r : Relay l) (stream : Bytes) (u : Unit {0})
      → IsDrawn draw
      → IsSound c l key r stream
      → (send_salt c l draw r).1 ≡ ok u
      → Salted r (send_salt c l draw r).0 stream
  send_salt-Salted draw r stream u d v e = elim (Bool-cases r.sent_response_salt) [
    | inl salted ↦ rw (send_salt_again draw r salted) (inl (salted, Grown-refl r stream v salted))
    | inr fresh ↦ elim (Result-cases (client_salt c draw r.crypto).1) [
      | inr (x, f) ↦ let failed = send_salt_failed draw r x fresh f in cc
      | inl (salt, f) ↦
          let (o, none_yet) = unsalted_empty r stream v fresh in
          let drawn = client_salt_drawn draw r.crypto salt f in
          let whole : client_salt c (some salt) r.crypto
              ≡ ((client_salt c draw r.crypto).0, ok salt) =
            ap (λ d. client_salt c d r.crypto) (sym drawn)
            ∙ ap (λ a. ((client_salt c draw r.crypto).0, a)) f in
          rw (send_salt_first draw r salt fresh f) (
            inr (
              fresh,
              push_salt-Grown c l key salt salt stream (client_salt c draw r.crypto).0 r
                  (rw drawn at d) whole v o none_yet,
            ))
    ]
  ]

  -- The chunk is pushed and the queue is flushed.
  abbrev pub chunked : Bytes → Session → Relay l → Relay l
  chunked out s r = flush_to_client l (push_client l out (record r { crypto = s }))

  pub send_chunk_ok :
      (bytes out : Bytes) (r : Relay l)
      → (encrypt_tcp_chunk c bytes r.crypto).1 ≡ ok out
      → send_chunk c l bytes r ≡ (chunked out (encrypt_tcp_chunk c bytes r.crypto).0 r, ok tt)
  unfolding send_chunk
  send_chunk_ok bytes out r e = rw (e, send_chunk) refl

  chunk-Sent :
      (bytes out stream : Bytes) (s : Session) (r : Relay l)
      → IsCrypto c
      → IsQueued l r
      → Sent c l key r stream
      → encrypt_tcp_chunk c bytes r.crypto ≡ (s, ok out)
      → Sent c l key (chunked out s r) (stream ++ bytes)
  unfolding flush_to_client
  chunk-Sent bytes out stream s r v q sent e =
      let q0 : IsQueued l (record r { crypto = s }) = record {
        counted = q.counted;
        busy = q.busy;
      } in
      let r2 = push_client l out (record r { crypto = s }) in
      let k = start_write-Started l r2.pending_client r2 in
      record {
        salt = sent.salt;
        chunks = sent.chunks ++ out ∷ [];
        client = sent.client;
        last = followed c s sent.last;
        salted = k.salted ∙ sent.salted;
        out_is =
            flush_to_client-outgoing l r2
            ∙ push_client-outgoing l out (record r { crypto = s }) q0
            ∙ ap (λ o. o ++ out ∷ []) sent.out_is;
        takes = sent.takes;
        opens =
            Opens-append c sent.chunks out stream bytes sent.client sent.last
              (followed c s sent.last) sent.opens
              (λ rest.
                decrypt_tcp_chunk-followed c bytes out rest r.crypto s sent.last v sent.synced e);
        synced = rw k.crypto (followed-Synced c bytes out r.crypto s sent.last v sent.synced e);
      }

  pub chunk-Grown :
      (bytes out stream : Bytes) (s : Session) (r r1 : Relay l) (room : ℕ)
      → IsCrypto c
      → Grown c l key r r1 stream room
      → encrypt_tcp_chunk c bytes r1.crypto ≡ (s, ok out)
      → Grown c l key r (chunked out s r1) (stream ++ bytes) (room + (length bytes + 34))
  unfolding flush_to_client
  chunk-Grown bytes out stream s r r1 room v g e =
      let q0 : IsQueued l (record r1 { crypto = s }) = record {
        counted = g.queued.counted;
        busy = g.queued.busy;
      } in
      let r2 = push_client l out (record r1 { crypto = s }) in
      let k = start_write-Started l r2.pending_client r2 in
      let q1 = push_client-IsQueued l out (record r1 { crypto = s }) q0 in
      let sealed = encrypt_tcp_chunk-Chunk c bytes out r1.crypto s v e in
      record {
        queued = start_write-IsQueued l r2.pending_client r2 refl q1;
        sent = chunk-Sent bytes out stream s r1 v g.queued g.sent e;
        master =
            ap (λ t. t.master_key) k.crypto ∙ ap (λ t. t.master_key) sealed.state_is ∙ g.master;
        recved = k.recved ∙ g.recved;
        deferred = k.deferred ∙ g.deferred;
        size =
            ap total k.pending
            ∙ omega (
              arith,
              total-append r1.pending_client (out ∷ []),
              g.size,
              length-encrypt_tcp_chunk c bytes out r1.crypto s v e,
            );
      }

  pub chunked-IsActive : (out : Bytes) (s : Session) (r : Relay l) → IsActive l (chunked out s r)
  unfolding flush_to_client
  chunked-IsActive out s r =
      let r2 = push_client l out (record r { crypto = s }) in
      start_write-IsActive l r2.pending_client r2 refl
