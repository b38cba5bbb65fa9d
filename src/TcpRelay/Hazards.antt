-- ===== src/TcpRelay/Hazards.antt =====
-- Runs in which TcpRelaySession does what it should not: two reads into one buffer, and a large
-- payload of the target that ends the session.
use ovpn2ss.Common.{
  ℕ, ◌+◌, ◌<◌, ◌≡◌, refl, ap, ◌∙◌, true, false, Option, some, inl, inr, Bytes, length, arith,
  lt→ltb, ltb, Bool-cases, ◌∷◌, [], List, Option-cases,
}
use ovpn2ss.Common.Outcome.{Error, Result, ok, err, send_salt_missing, chunk_too_large}
use ovpn2ss.Aead.Crypto.{Crypto}
use ovpn2ss.Aead.Session.{Session, encrypt_tcp_chunk}
use ovpn2ss.Lwip.{Lwip, err_ok}
use ovpn2ss.TcpRelay.State.{Relay, lwip_snd_low_water}
use ovpn2ss.TcpRelay.Closing.{close}
use ovpn2ss.TcpRelay.Upstream.{
  flush_to_lwip, flush_loop, u16_cut, read_encrypted_stream, on_connected, on_sent,
}
use ovpn2ss.TcpRelay.Downstream.{
  send_salt, send_chunk, and_then, enqueue_client_payload, on_recv, settle,
}

module _ (l : Lwip) where
  close-reads : (r : Relay l) → (close l r).reads ≡ r.reads
  unfolding close
  close-reads r = ground arith

  flush_loop-reads : (p : ℕ) (q : List Bytes) (r : Relay l) → (flush_loop l p q r).reads ≡ r.reads
  unfolding flush_loop
  flush_loop-reads p [] r = refl
  flush_loop-reads p (pkt ∷ rest) r =
      let (e, lwip) = l.tcp_write r.lwip p (u16_cut pkt) in
      let next = flush_loop-reads p rest (record r { lwip = lwip }) in
      let shut = close-reads (record r { pending_lwip = pkt ∷ rest; lwip = lwip }) in ground arith

  flush_to_lwip-reads : (r : Relay l) → (flush_to_lwip l r).reads ≡ r.reads
  unfolding flush_to_lwip
  flush_to_lwip-reads r = elim (Option-cases r.pcb) [
    | inl e ↦ rw (e, flush_to_lwip)
    | inr (p, e) ↦ rw (e, flush_to_lwip) (flush_loop-reads p r.pending_lwip r)
  ]

  on_sent-flush :
      (p : ℕ) (r : Relay l)
      → r.client_read_paused ≡ true
      → r.pcb ≡ some p
      → ltb (l.tcp_sndbuf r.lwip p) lwip_snd_low_water ≡ false
      → on_sent l r
        ≡ read_encrypted_stream l (flush_to_lwip l (record r { client_read_paused = false }))
  unfolding on_sent
  on_sent-flush p r d e f = ground arith

  read_encrypted_stream-reads :
      (r : Relay l)
      → r.client_read_paused ≡ false
      → r.closing ≡ false
      → (read_encrypted_stream l r).reads ≡ r.reads + 1
  unfolding read_encrypted_stream
  read_encrypted_stream-reads r g h = ground arith

  on_sent-reads :
      (p : ℕ) (r : Relay l)
      → r.client_read_paused ≡ true
      → r.pcb ≡ some p
      → ltb (l.tcp_sndbuf r.lwip p) lwip_snd_low_water ≡ false
      → (flush_to_lwip l (record r { client_read_paused = false })).client_read_paused ≡ false
      → (flush_to_lwip l (record r { client_read_paused = false })).closing ≡ false
      → (on_sent l r).reads ≡ r.reads + 1
  on_sent-reads p r d e f g h =
      let r2 = record r { client_read_paused = false } in
      ap (λ (x : Relay l). x.reads) (on_sent-flush p r d e f)
      ∙ (read_encrypted_stream-reads (flush_to_lwip l r2) g h
          ∙ ap (λ n. n + 1) (flush_to_lwip-reads r2))

  -- The session flushed, then lwIP in state `s` calls back: as maybe_resume_client_read flushes it.
  abbrev pub woken : Relay l → l.State → Relay l
  woken r s = record (flush_to_lwip l r) { lwip = s; client_read_paused = false }

  -- A read is in flight, the target's connection comes up, and the flush finds lwIP full. If lwIP
  -- then calls on_sent in a state with room for all that is queued, a second read of the same
  -- buffer is started beside the first.
  pub two_reads_in_flight :
      (p : ℕ) (r : Relay l) (s : l.State)
      → r.reads ≡ 1
      → (flush_to_lwip l r).client_read_paused ≡ true
      → (flush_to_lwip l r).pcb ≡ some p
      → ltb (l.tcp_sndbuf s p) lwip_snd_low_water ≡ false
      → (flush_to_lwip l (woken r s)).client_read_paused ≡ false
      → (flush_to_lwip l (woken r s)).closing ≡ false
      → (on_sent l (record (on_connected l err_ok r) { lwip = s })).reads ≡ 2
  unfolding on_sent on_connected
  two_reads_in_flight p r s a d e f g h =
      on_sent-reads p (record (flush_to_lwip l r) { lwip = s }) d e f g h
      ∙ ap (λ n. n + 1) (flush_to_lwip-reads r ∙ a)

module _ (c : Crypto) (l : Lwip) where
  encrypt_tcp_chunk-large :
      (bytes : Bytes) (s : Session)
      → 0x3fff < length bytes
      → (e : Error) × ((encrypt_tcp_chunk c bytes s).1 ≡ err e)
  unfolding encrypt_tcp_chunk
  encrypt_tcp_chunk-large bytes s h =
      let big = lt→ltb 0x3fff (length bytes) h in
      elim (Bool-cases s.sent_salt) [
        | inl e ↦ (chunk_too_large, ground arith)
        | inr e ↦ (send_salt_missing, ground arith)
      ]

  close-closing : (r : Relay l) → (close l r).closing ≡ true
  unfolding close
  close-closing r = ground arith

  send_chunk-large :
      (bytes : Bytes) (r : Relay l)
      → 0x3fff < length bytes
      → (e : Error) × ((send_chunk c l bytes r).1 ≡ err e)
  unfolding send_chunk
  send_chunk-large bytes r h =
      let (e, d) = encrypt_tcp_chunk-large bytes r.crypto h in (e, ground arith)

  settle-err :
      (p n : ℕ) (x : Relay l × Result (Unit {0})) (e : Error)
      → x.1 ≡ err e
      → (settle c l p n x).closing ≡ true
  settle-err p n (r, ok u) e d = ground arith
  settle-err p n (r, err f) e d = close-closing r

  and_then-large :
      (bytes : Bytes) (x : Relay l × Result (Unit {0}))
      → 0x3fff < length bytes
      → (e : Error) × ((and_then c l x (send_chunk c l bytes)).1 ≡ err e)
  and_then-large bytes (r, ok u) h = send_chunk-large bytes r h
  and_then-large bytes (r, err f) h = (f, refl)

  -- A payload of the target above 0x3fff bytes that lwIP delivers in one call ends the session,
  -- whatever state it is in.
  pub on_recv_large :
      (draw : Option Bytes) (p : ℕ) (bytes : Bytes) (r : Relay l)
      → 0x3fff < length bytes
      → (on_recv c l draw p (some bytes) err_ok r).closing ≡ true
  unfolding on_recv enqueue_client_payload
  on_recv_large draw p [] r h = ground arith
  on_recv_large draw p (b ∷ bytes) r h =
      let (e, d) = and_then-large (b ∷ bytes) (send_salt c l draw r) h in
      settle-err p (length (b ∷ bytes))
        (and_then c l (send_salt c l draw r) (send_chunk c l (b ∷ bytes))) e d
