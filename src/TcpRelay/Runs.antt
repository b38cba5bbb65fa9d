-- ===== src/TcpRelay/Runs.antt =====
-- What holds of a TcpRelaySession after any events: it refines a stream of bytes.
use ovpn2ss.Common.{
  ℕ, suc, ◌+◌, ◌*◌, ◌≤◌, ◌≡◌, refl, ◌⊎◌, inl, inr, true, false, Option, none, some, Bytes, List, [],
  ◌∷◌, ◌++◌, length, arith, append-nil,
}
use ovpn2ss.Common.Outcome.{ok}
use ovpn2ss.Aead.Crypto.{Crypto, IsCrypto}
use ovpn2ss.Aead.Session.{Session, make_session, set_client_salt}
use ovpn2ss.Lwip.{Lwip, Err}
use ovpn2ss.TcpRelay.State.{Relay, init, client_queue_high_water}
use ovpn2ss.TcpRelay.Order.{total, outgoing}
use ovpn2ss.TcpRelay.Events.{
  tcp_wnd, Event, salted, read, resolved, connected, sent, aborted, received, written, write_failed,
  delivered_by, IsAllowed, step, on_received, Reached, here, more,
}
use ovpn2ss.TcpRelay.Keeps.Reading.{on_salt-Keeps, on_read-Keeps}
use ovpn2ss.TcpRelay.Keeps.{
  Keeps, on_resolved-Keeps, on_connected-Keeps, on_sent-Keeps, on_err-Keeps,
}
use ovpn2ss.TcpRelay.Opening.{flat, open_stream, open_stream-Opens}
use ovpn2ss.TcpRelay.Sound.{IsSound, salt_room_le}
use ovpn2ss.TcpRelay.Received.{IsRight, Keeps-IsRight, on_recv-IsRight}
use ovpn2ss.TcpRelay.Written.{on_written-IsRight, on_write_failed-IsRight}

module _ (c : Crypto) (l : Lwip) (key : Bytes) where
  -- An event by which nothing is delivered and that leaves alone what is for the client.
  quiet :
      (r r' : Relay l) (stream : Bytes)
      → Keeps l r r'
      → IsRight c l key r stream
      → IsRight c l key r' (stream ++ [])
  quiet r r' stream k right = rw (append-nil stream) (Keeps-IsRight c l key r r' stream k right)

  on_received-IsRight :
      (draw payload : Option Bytes) (e : Err) (pcb : Option ℕ) (stream : Bytes) (r : Relay l)
      → IsCrypto c
      → IsRight c l key r stream
      → IsAllowed l (received draw payload e) (record r { pcb = pcb })
      → IsRight c l key
          (on_received c l draw payload e r pcb)
          (stream ++ delivered_by l (received draw payload e) pcb)
  on_received-IsRight draw none e none stream r v right h = rw (append-nil stream) right
  on_received-IsRight draw (some bytes) e none stream r v right h = rw (append-nil stream) right
  on_received-IsRight draw payload e (some p) stream r v right (fits, d) =
      on_recv-IsRight c l key draw payload p e stream r v d right fits

  step-IsRight :
      (e : Event l) (r : Relay l) (stream : Bytes)
      → IsCrypto c
      → IsAllowed l e r
      → IsRight c l key r stream
      → IsRight c l key (step c l e r) (stream ++ delivered_by l e r.pcb)
  unfolding step
  step-IsRight (salted salt) r stream v h right = quiet r _ stream (on_salt-Keeps c l salt r) right
  step-IsRight (read end) r stream v h right = quiet r _ stream (on_read-Keeps c l end r) right
  step-IsRight (resolved e ip port) r stream v h right =
      quiet r _ stream (on_resolved-Keeps l e ip port r) right
  step-IsRight (connected e) r stream v h right = quiet r _ stream (on_connected-Keeps l e r) right
  step-IsRight sent r stream v h right = quiet r _ stream (on_sent-Keeps l r) right
  step-IsRight aborted r stream v h right = quiet r _ stream (on_err-Keeps l true r) right
  step-IsRight (received draw payload e) r stream v h right =
      on_received-IsRight draw payload e r.pcb stream r v right h
  step-IsRight written r stream v h right =
      rw (append-nil stream) (on_written-IsRight c l key r.pending_client stream r refl right)
  step-IsRight write_failed r stream v h right =
      rw (append-nil stream) (on_write_failed-IsRight c l key stream r right)

  init-IsSound : (lwip : l.State) → IsSound c l key (init l key lwip) []
  init-IsSound lwip = record {
    queued = record { counted = refl; busy = refl };
    active = refl;
    carries = inl (refl, refl, refl);
    master = refl;
    window = refl;
    held = omega arith;
    bounded = omega arith;
  }

  Reached-IsRight :
      (lwip : l.State) (r : Relay l) (stream : Bytes)
      → IsCrypto c
      → Reached c l (init l key lwip) r stream
      → IsRight c l key r stream
  Reached-IsRight lwip r stream v (here e f) = rw (e, f) (inr (init-IsSound lwip))
  Reached-IsRight lwip r stream v (more {r = before} {stream = earlier} event run fits e f) =
      rw (e, f)
        (step-IsRight event before earlier v fits (Reached-IsRight lwip before earlier v run))

  pub Reached-IsSound :
      (lwip : l.State) (r : Relay l) (stream : Bytes)
      → IsCrypto c
      → Reached c l (init l key lwip) r stream
      → r.closing ≡ false
      → IsSound c l key r stream
  Reached-IsSound lwip r stream v run opened = elim (Reached-IsRight lwip r stream v run) [
    | inl shut ↦ cc
    | inr sound ↦ sound
  ]

  -- What the buffers for a client are to it: a salt that it takes, then chunks that it opens one after
  -- the other to all of `stream`, with nothing left.
  pub record Readable (out : List Bytes) (stream : Bytes) : Type 0 where
    pub salt : Bytes
    pub chunks : List Bytes
    pub client : Session
    pub out_is : out ≡ salt ∷ chunks
    pub takes : set_client_salt c salt (make_session key) ≡ (client, ok tt)
    pub opens : open_stream c (suc (length chunks)) (flat chunks) client ≡ some (stream, [])

  abbrev pub Carried : List Bytes → Bytes → Type 0
  Carried out stream = ((out ≡ []) × (stream ≡ [])) ⊎ Readable out stream

  IsSound-Carried :
      (r : Relay l) (stream : Bytes) → IsSound c l key r stream → Carried (outgoing l r) stream
  IsSound-Carried r stream v = elim v.carries [
    | inl (s, o, e) ↦ inl (o, e)
    | inr k ↦ inr (record {
      salt = k.salt;
      chunks = k.chunks;
      client = k.client;
      out_is = k.out_is;
      takes = k.takes;
      opens = open_stream-Opens c k.chunks stream k.client k.last k.opens;
    })
  ]

  -- Whatever events a session runs through, as long as it is not closing: the buffers that it gave
  -- to the client socket or has queued for it carry exactly the bytes that lwIP has delivered, in
  -- order. Either nothing was delivered and there are no buffers; or the first is a salt that a
  -- client with the same key takes, and from the others that client opens chunk after chunk to just
  -- these bytes, with nothing left. The cipher keeps its laws, the generator fills a salt of 32
  -- bytes or throws, and lwIP delivers within the window.
  pub Reached-Carried :
      (lwip : l.State) (r : Relay l) (stream : Bytes)
      → IsCrypto c
      → Reached c l (init l key lwip) r stream
      → r.closing ≡ false
      → Carried (outgoing l r) stream
  Reached-Carried lwip r stream v run opened =
      IsSound-Carried r stream (Reached-IsSound lwip r stream v run opened)

  -- Whatever events a session runs through, as long as it is not closing: the bytes that lwIP was
  -- told of by tcp_recved and those that are held back are in all as many as it has delivered.
  pub Reached-window :
      (lwip : l.State) (r : Relay l) (stream : Bytes)
      → IsCrypto c
      → Reached c l (init l key lwip) r stream
      → r.closing ≡ false
      → r.recved + r.deferred_tcp_recved ≡ length stream
  Reached-window lwip r stream v run opened = (Reached-IsSound lwip r stream v run opened).window

  -- Whatever events a session runs through, as long as it is not closing: the client's queue holds
  -- at most the high mark, a salt, and 35 bytes for each byte of lwIP's window; its byte count is
  -- right without wrapping; and no more than the window is held back.
  pub Reached-bounded :
      (lwip : l.State) (r : Relay l) (stream : Bytes)
      → IsCrypto c
      → Reached c l (init l key lwip) r stream
      → r.closing ≡ false
      → (total r.pending_client ≤ client_queue_high_water + 32 + 35 * tcp_wnd)
        × (r.client_queue_bytes ≡ total r.pending_client)
        × (r.deferred_tcp_recved ≤ tcp_wnd)
  Reached-bounded lwip r stream v run opened =
      let s = Reached-IsSound lwip r stream v run opened in
      let bounded = s.bounded in
      let counted = s.queued.counted in
      let held = s.held in
      let small = salt_room_le r.sent_response_salt in (omega arith, omega arith, held)
