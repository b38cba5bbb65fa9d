-- ===== src/TcpRelay/Keeps.antt =====
-- What the operations on the way to the target leave alone: all that is for the client.
pub mod Reading
use ovpn2ss.Common.{
  ℕ, zero, suc, ◌-◌, ◌≡◌, refl, sym, ◌∙◌, ◌⊎◌, inl, inr, Bool, true, false, not, ◌||◌, Option, none,
  some, Bytes, List, [], ◌∷◌, ◌++◌, if◌then◌else◌, ltb, length, is_some, ◌==◌, arith, Bool-cases,
  Option-cases,
}
use ovpn2ss.Common.Outcome.{Result, ok, err, Result-cases}
use ovpn2ss.Aead.Stream.{threw, waits, gives, Answer-cases}
use ovpn2ss.TcpRelay.Events.{or_else}
use ovpn2ss.Aead.Crypto.{Crypto}
use ovpn2ss.Aead.Session.{Session, set_client_salt, decrypt_tcp_chunk, open_payload}
use ovpn2ss.Address.{TargetAddress, is_domain, parse_ss_address}
use ovpn2ss.Lwip.{Lwip, Err}
use ovpn2ss.TcpRelay.State.{Relay, lwip_snd_low_water}
use ovpn2ss.TcpRelay.Closing.{
  is_ok, close, close_client_only, end_upstream, handle_client_eof, handle_remote_fin, on_err,
}
use ovpn2ss.TcpRelay.Upstream.{
  u16_cut, is_full, is_mem, read_encrypted_stream, flush_loop, flush_to_lwip,
  maybe_resume_client_read, on_sent, on_connected, connect_ip, on_resolved, connect_target,
  then_queue, process_target, process_decrypted_chunk, queue_upstream,
}
use ovpn2ss.TcpRelay.Reading.{ReadEnd, gave, ended, failed, on_salt, read_loop, after_loop, on_read}

-- The sending half of a session.
pub record SameSending (s s' : Session) : Type 0 where
  pub same_key : s'.send_key ≡ s.send_key
  pub same_nonce : s'.send_nonce ≡ s.send_nonce
  pub same_salt : s'.sent_salt ≡ s.sent_salt
  pub same_master : s'.master_key ≡ s.master_key

-- What of a session is for the client, and whether it is closing.
pub record Down : Type 0 where
  pub crypto : Session
  pub writes : List Bytes
  pub writing_client : Bool
  pub pending_client : List Bytes
  pub client_queue_bytes : ℕ
  pub deferred_tcp_recved : ℕ
  pub recved : ℕ
  pub sent_response_salt : Bool
  pub closing : Bool

-- A session that is closing stays so.
pub record Kept (d d' : Down) : Type 0 where
  pub writes : d'.writes ≡ d.writes
  pub writing : d'.writing_client ≡ d.writing_client
  pub pending : d'.pending_client ≡ d.pending_client
  pub count : d'.client_queue_bytes ≡ d.client_queue_bytes
  pub deferred : d'.deferred_tcp_recved ≡ d.deferred_tcp_recved
  pub recved : d'.recved ≡ d.recved
  pub salted : d'.sent_response_salt ≡ d.sent_response_salt
  pub sending : SameSending d.crypto d'.crypto
  pub closes : (d.closing ≡ false) ⊎ (d'.closing ≡ true)

Kept-refl : (d : Down) → Kept d d
Kept-refl d = record {
  writes = refl;
  writing = refl;
  pending = refl;
  count = refl;
  deferred = refl;
  recved = refl;
  salted = refl;
  sending = record { same_key = refl; same_nonce = refl; same_salt = refl; same_master = refl };
  closes = ground arith;
}

pub Kept-trans : (d d1 d2 : Down) → Kept d d1 → Kept d1 d2 → Kept d d2
Kept-trans d d1 d2 a b = record {
  writes = b.writes ∙ a.writes;
  writing = b.writing ∙ a.writing;
  pending = b.pending ∙ a.pending;
  count = b.count ∙ a.count;
  deferred = b.deferred ∙ a.deferred;
  recved = b.recved ∙ a.recved;
  salted = b.salted ∙ a.salted;
  sending = record {
    same_key = b.sending.same_key ∙ a.sending.same_key;
    same_nonce = b.sending.same_nonce ∙ a.sending.same_nonce;
    same_salt = b.sending.same_salt ∙ a.sending.same_salt;
    same_master = b.sending.same_master ∙ a.sending.same_master;
  };
  closes = ground (arith, a.closes, b.closes);
}

module _ (l : Lwip) where
  abbrev pub down : Relay l → Down
  down r = record {
    crypto = r.crypto;
    writes = r.writes;
    writing_client = r.writing_client;
    pending_client = r.pending_client;
    client_queue_bytes = r.client_queue_bytes;
    deferred_tcp_recved = r.deferred_tcp_recved;
    recved = r.recved;
    sent_response_salt = r.sent_response_salt;
    closing = r.closing;
  }

  abbrev pub Keeps : Relay l → Relay l → Type 0
  Keeps r r' = Kept (down r) (down r')

  pub Keeps-trans : (r r1 r2 : Relay l) → Keeps r r1 → Keeps r1 r2 → Keeps r r2
  Keeps-trans r r1 r2 = Kept-trans (down r) (down r1) (down r2)

  pub Keeps-refl : (r : Relay l) → Keeps r r
  Keeps-refl r = Kept-refl (down r)

  pub close-Keeps : (r : Relay l) → Keeps r (close l r)
  unfolding close
  close-Keeps r = ground arith

  end_upstream-Keeps : (r : Relay l) → Keeps r (end_upstream l r)
  unfolding end_upstream
  end_upstream-Keeps r = ground arith

  pub handle_client_eof-Keeps : (r : Relay l) → Keeps r (handle_client_eof l r)
  unfolding handle_client_eof
  handle_client_eof-Keeps r =
      let r1 = end_upstream l (record r { client_eof = true }) in
      let upstream : Keeps r r1 = end_upstream-Keeps (record r { client_eof = true }) in
      elim (Bool-cases (r1.remote_eof || not (is_some r1.pcb))) [
        | inl e ↦ rw e (Keeps-trans r r1 (close l r1) upstream (close-Keeps r1))
        | inr e ↦ rw e upstream
      ]

  pub handle_remote_fin-Keeps : (r : Relay l) → Keeps r (handle_remote_fin l r)
  unfolding handle_remote_fin
  handle_remote_fin-Keeps r = ground arith

  pub on_err-Keeps : (attached : Bool) (r : Relay l) → Keeps r (on_err l attached r)
  unfolding on_err
  on_err-Keeps attached r = ground arith

  pub read_encrypted_stream-Keeps : (r : Relay l) → Keeps r (read_encrypted_stream l r)
  unfolding read_encrypted_stream
  read_encrypted_stream-Keeps r = ground arith

  flush_loop-Keeps : (p : ℕ) (q : List Bytes) (r : Relay l) → Keeps r (flush_loop l p q r)
  unfolding flush_loop
  flush_loop-Keeps p [] r = Keeps-refl r
  flush_loop-Keeps p (pkt ∷ rest) r =
      let (e, lwip) = l.tcp_write r.lwip p (u16_cut pkt) in
      let next : Keeps r (flush_loop l p rest (record r { lwip = lwip })) =
        flush_loop-Keeps p rest (record r { lwip = lwip }) in
      let left = record r { pending_lwip = pkt ∷ rest; lwip = lwip } in
      let shut : Keeps r (close l left) = close-Keeps left in
      let same = Keeps-refl r in
      elim (Bool-cases (is_full l p r.lwip pkt)) [
        | inl full ↦ rw full same
        | inr room ↦ elim (Bool-cases (is_mem l e)) [
          | inl mem ↦ rw (room, mem) same
          | inr other ↦ elim (Bool-cases (is_ok e)) [
            | inl took ↦ rw (room, other, took) next
            | inr bad ↦ rw (room, other, bad) shut
          ]
        ]
      ]

  pub flush_to_lwip-Keeps : (r : Relay l) → Keeps r (flush_to_lwip l r)
  unfolding flush_to_lwip
  flush_to_lwip-Keeps r = elim (Option-cases r.pcb) [
    | inl e ↦ rw (e, flush_to_lwip) (Keeps-refl r)
    | inr (p, e) ↦ rw (e, flush_to_lwip) (flush_loop-Keeps p r.pending_lwip r)
  ]

  abbrev woken : Relay l → Relay l
  woken r = flush_to_lwip l (record r { client_read_paused = false })

  on_sent-cases :
      (r : Relay l) → (on_sent l r ≡ r) ⊎ (on_sent l r ≡ read_encrypted_stream l (woken r))
  unfolding on_sent
  on_sent-cases r = ground arith

  pub on_sent-Keeps : (r : Relay l) → Keeps r (on_sent l r)
  on_sent-Keeps r = elim (on_sent-cases r) [
    | inl e ↦ rw e (Keeps-refl r)
    | inr e ↦
        let flushed : Keeps r (woken r) =
          flush_to_lwip-Keeps (record r { client_read_paused = false }) in
        rw e (
          Keeps-trans r (woken r) (read_encrypted_stream l (woken r)) flushed
            (read_encrypted_stream-Keeps (woken r)))
  ]

  pub on_connected-Keeps : (e : Err) (r : Relay l) → Keeps r (on_connected l e r)
  unfolding on_connected
  on_connected-Keeps e r = elim (Bool-cases (is_ok e)) [
    | inl good ↦ rw good (flush_to_lwip-Keeps r)
    | inr bad ↦ rw bad (close-Keeps r)
  ]

  connect_ip-Keeps : (ip : l.Ip) (port : ℕ) (r : Relay l) → Keeps r (connect_ip l ip port r)
  unfolding connect_ip
  connect_ip-Keeps ip port r = ground arith

  pub on_resolved-Keeps :
      (e : Err) (ip : Option l.Ip) (port : ℕ) (r : Relay l) → Keeps r (on_resolved l e ip port r)
  unfolding on_resolved
  on_resolved-Keeps e none port r = close-Keeps r
  on_resolved-Keeps e (some ip) port r = elim (Bool-cases (not (is_ok e) || r.closing)) [
    | inl bad ↦ rw bad (close-Keeps r)
    | inr good ↦ rw good (connect_ip-Keeps ip port r)
  ]

  connect_target-Keeps : (t : TargetAddress) (r : Relay l) → Keeps r (connect_target l t r).0
  unfolding connect_target
  connect_target-Keeps t r = elim (Bool-cases (is_domain t.type)) [
    | inl domain ↦ rw domain (Keeps-refl r)
    | inr literal ↦ elim (Option-cases (l.ipaddr_aton t.host)) [
      | inl e ↦ rw (literal, e, connect_target) (Keeps-refl r)
      | inr (ip, e) ↦ rw (literal, e, connect_target) (connect_ip-Keeps ip t.port r)
    ]
  ]

  queue_upstream-Keeps : (bytes : Bytes) (r : Relay l) → Keeps r (queue_upstream l bytes r)
  queue_upstream-Keeps [] r = Keeps-refl r
  queue_upstream-Keeps (b ∷ bytes) r = Keeps-refl r

  then_queue-Keeps :
      (bytes : Bytes) (m : Relay l × Result (Unit {0})) → Keeps m.0 (then_queue l bytes m).0
  then_queue-Keeps bytes (r, ok u) = queue_upstream-Keeps bytes r
  then_queue-Keeps bytes (r, err e) = Keeps-refl r

  process_target-Keeps :
      (t : Option TargetAddress) (bytes : Bytes) (r : Relay l)
      → Keeps r (process_target l t bytes r).0
  unfolding process_target
  process_target-Keeps none bytes r = close-Keeps r
  process_target-Keeps (some t) bytes r =
      let named = record r { got_target = true } in
      Keeps-trans r (connect_target l t named).0 (then_queue l bytes (connect_target l t named)).0
        (connect_target-Keeps t named) (then_queue-Keeps bytes (connect_target l t named))

  if-Keeps :
      (b : Bool) (r : Relay l) (x y : Relay l × Result (Unit {0}))
      → Keeps r x.0
      → Keeps r y.0
      → Keeps r (if b then x else y).0
  if-Keeps true r x y h k = h
  if-Keeps false r x y h k = k

  pub process_decrypted_chunk-Keeps :
      (chunk : Bytes) (r : Relay l) → Keeps r (process_decrypted_chunk l chunk r).0
  unfolding process_decrypted_chunk
  process_decrypted_chunk-Keeps chunk r =
      let (target, bytes) = parse_ss_address chunk in
      if-Keeps r.got_target r (queue_upstream l chunk r, ok tt) (process_target l target bytes r)
        (queue_upstream-Keeps chunk r) (process_target-Keeps target bytes r)
