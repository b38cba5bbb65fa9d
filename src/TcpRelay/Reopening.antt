-- ===== src/TcpRelay/Reopening.antt =====
-- Two chunks of one read in read_loop: the first closes the session, and the second connects it.
use ovpn2ss.Common.{
  ℕ, ◌≡◌, ap, ◌∙◌, true, false, none, some, inl, inr, Bytes, arith, [], Option-cases, is_some, sym,
  suc, ◌++◌,
}
use ovpn2ss.Common.Outcome.{ok}
use ovpn2ss.Aead.Crypto.{Crypto, IsCrypto}
use ovpn2ss.Aead.Session.{Session, encrypt_tcp_chunk}
use ovpn2ss.Aead.TcpChunk.{Synced, followed, decrypt_tcp_chunk-followed, followed-Synced}
use ovpn2ss.Address.{Asio, is_domain, TargetAddress, parse_ss_address, encode_ss_address}
use ovpn2ss.Address.RoundTrip.{IsAsio, IsTarget}
use ovpn2ss.TcpRelay.Segments.{processed, round_gives}
use ovpn2ss.TcpRelay.Connects.{read_whole, read_loop-encode_ss_address}
use ovpn2ss.TcpRelay.Reading.{read_loop}
use ovpn2ss.Lwip.{Lwip}
use ovpn2ss.TcpRelay.State.{Relay}
use ovpn2ss.TcpRelay.Closing.{close}
use ovpn2ss.TcpRelay.Upstream.{
  process_decrypted_chunk, connect_ip, then_queue, connect_target, queue_upstream,
}

module _ (l : Lwip) where
  -- close does nothing to a closed session, so the pcb is kept whatever tcp_connect answers.
  connect_ip_closed :
      (ip : l.Ip) (port : ℕ) (r : Relay l)
      → r.closing ≡ true
      → r.active_self ≡ false
      → let r' = connect_ip l ip port r in
        (r'.closing ≡ true)
        × (r'.socket_open ≡ r.socket_open)
        × (r'.pcb ≡ (l.tcp_new_pcb r.lwip).0)
        × (r'.active_self ≡ is_some r'.pcb)
  unfolding connect_ip close
  connect_ip_closed ip port r h n = elim (Option-cases (l.tcp_new_pcb r.lwip).0) [
    | inl e ↦ ground arith
    | inr (p, e) ↦ ground arith
  ]

  close_open :
      (r : Relay l)
      → r.closing ≡ false
      → let r' = close l r in
        (r'.closing ≡ true)
        × (r'.socket_open ≡ false)
        × (r'.active_self ≡ false)
        × (r'.got_target ≡ r.got_target)
        × (r'.crypto ≡ r.crypto)
  unfolding close
  close_open r h = ground arith

  close_crypto-lwip :
      (s : Session) (r : Relay l) → (close l (record r { crypto = s })).lwip ≡ (close l r).lwip
  unfolding close
  close_crypto-lwip s r = ground arith

  process_decrypted_chunk_bad :
      (bad : Bytes) (r : Relay l)
      → r.got_target ≡ false
      → (parse_ss_address bad).0 ≡ none
      → process_decrypted_chunk l bad r ≡ (close l r, ok tt)
  unfolding process_decrypted_chunk
  process_decrypted_chunk_bad bad r g n = ground arith

  connect_target_ip :
      (t : TargetAddress) (ip : l.Ip) (r : Relay l)
      → is_domain t.type ≡ false
      → l.ipaddr_aton t.host ≡ some ip
      → connect_target l t r ≡ (connect_ip l ip t.port r, ok tt)
  unfolding connect_target
  connect_target_ip t ip r d e = ground arith

  queue_upstream_keeps :
      (payload : Bytes) (r : Relay l)
      → let r' = queue_upstream l payload r in
        (r'.closing ≡ r.closing)
        × (r'.socket_open ≡ r.socket_open)
        × (r'.pcb ≡ r.pcb)
        × (r'.active_self ≡ r.active_self)
  queue_upstream_keeps payload r = ground arith

module _ (c : Crypto) (a : Asio) (l : Lwip) where
  -- The session once it has opened a first chunk that closed it and a second one behind it.
  abbrev pub read_two : Session → Session → Relay l → Relay l
  read_two s1 s2 r =
      let shut = close l (record r { crypto = followed c s1 r.crypto }) in
      record shut { crypto = followed c s2 shut.crypto; got_target = true }

  -- The first chunk closes the session, and the loop goes on with what is behind it.
  read_loop_bad :
      (fuel : ℕ) (bad out more : Bytes) (s s1 : Session) (r : Relay l)
      → IsCrypto c
      → (parse_ss_address bad).0 ≡ none
      → encrypt_tcp_chunk c bad s ≡ (s1, ok out)
      → Synced s r.crypto
      → r.got_target ≡ false
      → read_loop c l (suc fuel) (out ++ more) r
        ≡ read_loop c l fuel more (close l (record r { crypto = followed c s1 r.crypto }))
  read_loop_bad fuel bad out more s s1 r v n e y g =
      let opened = decrypt_tcp_chunk-followed c bad out more s s1 r.crypto v y e in
      let closed : processed c l (out ++ more) bad r
          ≡ (close l (record r { crypto = followed c s1 r.crypto }), ok tt) =
        ap (λ x. process_decrypted_chunk l bad (record r { crypto = x.0 })) opened
        ∙ process_decrypted_chunk_bad l bad (record r { crypto = followed c s1 r.crypto }) g n in
      round_gives c l fuel (out ++ more) bad more r (ap (λ x. x.1) opened) tt (ap (λ x. x.1) closed)
      ∙ ap (λ x. read_loop c l fuel more x.0) closed

  read_loop_two :
      (fuel : ℕ) (bad front payload out out' : Bytes) (t : TargetAddress) (ip : l.Ip)
      (s s1 s2 : Session) (r : Relay l)
      → IsCrypto c
      → IsAsio a
      → IsTarget t
      → is_domain t.type ≡ false
      → l.ipaddr_aton t.host ≡ some ip
      → (parse_ss_address bad).0 ≡ none
      → encode_ss_address a t ≡ ok front
      → encrypt_tcp_chunk c bad s ≡ (s1, ok out)
      → encrypt_tcp_chunk c (front ++ payload) s1 ≡ (s2, ok out')
      → Synced s r.crypto
      → r.got_target ≡ false
      → r.closing ≡ false
      → read_loop c l (suc (suc (suc fuel))) (out ++ out') r
        ≡ some (queue_upstream l payload (connect_ip l ip t.port (read_two s1 s2 r)), ok [])
  read_loop_two fuel bad front payload out out' t ip s s1 s2 r v w k d i n enc e e' y g h =
      let r1 = record r { crypto = followed c s1 r.crypto } in
      let shut = close l r1 in
      let (closing, socket, self, target, crypto) = close_open l r1 h in
      let step : Synced s1 shut.crypto =
        rw crypto (followed-Synced c bad out s s1 r.crypto v y e) in
      read_loop_bad (suc (suc fuel)) bad out out' s s1 r v n e y g
      ∙ read_loop-encode_ss_address c a l fuel t front payload out' s1 s2 shut v w k enc e' step
          (target ∙ g)
      ∙ ap (λ x. read_whole c l (then_queue l payload x))
          (connect_target_ip l t ip (read_two s1 s2 r) d i)

  -- A client in step with an open session that has no target yet seals two chunks: the first names
  -- no target that parses, the second an IP address that lwIP reads, with a payload. The loop over
  -- the chunks of a read that has both goes on behind the first, which closes the session, to the
  -- end of the second: the session is then closing, with its client socket closed, and yet it holds
  -- the pcb that lwIP gives, and itself, if lwIP gives one, whatever tcp_connect answers. The
  -- cipher keeps its laws, and Asio reads back the texts that the parser writes.
  pub closed_session_connects :
      (fuel : ℕ) (bad front payload out out' : Bytes) (t : TargetAddress) (ip : l.Ip)
      (s s1 s2 : Session) (r : Relay l)
      → IsCrypto c
      → IsAsio a
      → IsTarget t
      → is_domain t.type ≡ false
      → l.ipaddr_aton t.host ≡ some ip
      → (parse_ss_address bad).0 ≡ none
      → encode_ss_address a t ≡ ok front
      → encrypt_tcp_chunk c bad s ≡ (s1, ok out)
      → encrypt_tcp_chunk c (front ++ payload) s1 ≡ (s2, ok out')
      → Synced s r.crypto
      → r.got_target ≡ false
      → r.closing ≡ false
      → (r' : Relay l) × (read_loop c l (suc (suc (suc fuel))) (out ++ out') r ≡ some (r', ok []))
        × (r'.closing ≡ true)
        × (r'.socket_open ≡ false)
        × (r'.pcb ≡ (l.tcp_new_pcb (close l r).lwip).0)
        × (r'.active_self ≡ is_some r'.pcb)
  closed_session_connects fuel bad front payload out out' t ip s s1 s2 r v w k d i n enc e e' y g
        h =
      let two = read_two s1 s2 r in
      let (closing, socket, self, target, crypto) =
        close_open l (record r { crypto = followed c s1 r.crypto }) h in
      let (closing', socket', pcb', self') = connect_ip_closed l ip t.port two closing self in
      let same_lwip = close_crypto-lwip l (followed c s1 r.crypto) r in
      let kept = queue_upstream_keeps l payload (connect_ip l ip t.port two) in
      (
        queue_upstream l payload (connect_ip l ip t.port two),
        read_loop_two fuel bad front payload out out' t ip s s1 s2 r v w k d i n enc e e' y g h,
        kept.0 ∙ closing',
        kept.1 ∙ (socket' ∙ socket),
        kept.2 ∙ (pcb' ∙ ap (λ x. (l.tcp_new_pcb x).0) same_lwip),
        kept.3 ∙ (self' ∙ ap is_some (sym kept.2)),
      )
