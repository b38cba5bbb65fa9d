-- ===== src/UdpRelay/Standing.antt =====
-- What the completions leave alone: whether the session runs, its socket and its key.
use ovpn2ss.Common.{
  ℕ, ◌≡◌, refl, ◌∙◌, inl, inr, Bool, true, not, ◌||◌, Option, none, some, Bytes, arith, Bool-cases,
  Option-cases,
}
use ovpn2ss.Common.Outcome.{Result-cases}
use ovpn2ss.Aead.Crypto.{Crypto}
use ovpn2ss.Aead.Session.{make_session, decrypt_udp_packet}
use ovpn2ss.Address.{TargetAddress, is_domain, Asio, parse_ss_address}
use ovpn2ss.Lwip.{Err}
use ovpn2ss.TcpRelay.Closing.{is_ok}
use ovpn2ss.UdpRelay.Stack.{Stack}
use ovpn2ss.UdpRelay.State.{Mapping, Relay}
use ovpn2ss.UdpRelay.Mappings.{mapping_for, erase_mapping}
use ovpn2ss.UdpRelay.Sending.{
  receive_loop, send_on, send_payload_to_ip, on_resolved, dispatch, send_to_lwip, on_receive,
  send_to_client, on_udp_recv,
}
use ovpn2ss.UdpRelay.Events.{
  Event, is_completion, started, stopped, received, resolved, idle, came_back, step,
}

module _ (u : Stack) where
  pub record Stands (r r' : Relay u) : Type 0 where
    pub running : r'.running ≡ r.running
    pub socket_open : r'.socket_open ≡ r.socket_open
    pub master_key : r'.master_key ≡ r.master_key

  unmoved : (r : Relay u) → Stands r r
  unmoved r = record { running = refl; socket_open = refl; master_key = refl }

  in_turn : (r r' r'' : Relay u) → Stands r r' → Stands r' r'' → Stands r r''
  in_turn r r' r'' x y = record {
    running = y.running ∙ x.running;
    socket_open = y.socket_open ∙ x.socket_open;
    master_key = y.master_key ∙ x.master_key;
  }

  mapping_for-Stands :
      (client : u.Endpoint) (t : TargetAddress) (r : Relay u)
      → Stands r (mapping_for u client t r).0
  unfolding mapping_for
  mapping_for-Stands client t r = record {
    running = ground arith;
    socket_open = ground arith;
    master_key = ground arith;
  }

  erase_mapping-Stands : (key : Bytes) (r : Relay u) → Stands r (erase_mapping u key r)
  unfolding erase_mapping
  erase_mapping-Stands key r = record {
    running = ground arith;
    socket_open = ground arith;
    master_key = ground arith;
  }

  receive_loop-Stands : (r : Relay u) → Stands r (receive_loop u r)
  unfolding receive_loop
  receive_loop-Stands r = record {
    running = ground arith;
    socket_open = ground arith;
    master_key = ground arith;
  }

  send_payload_to_ip-Stands :
      (payload : Bytes) (client : u.Endpoint) (t : TargetAddress) (ip : u.Ip) (r : Relay u)
      → Stands r (send_payload_to_ip u payload client t ip r)
  unfolding send_payload_to_ip send_on
  send_payload_to_ip-Stands payload client t ip r =
      let m = mapping_for-Stands client t r in
      record {
        running = ground (arith, m.running);
        socket_open = ground (arith, m.socket_open);
        master_key = ground (arith, m.master_key);
      }

  on_resolved-Stands :
      (token : Bool) (payload : Bytes) (client : u.Endpoint) (t : TargetAddress) (x : Err)
      (ip : Option u.Ip) (r : Relay u)
      → Stands r (on_resolved u token payload client t x ip r)
  unfolding on_resolved
  on_resolved-Stands token payload client t x none r = unmoved r
  on_resolved-Stands token payload client t x (some a) r =
      elim (Bool-cases (not token || not r.running || not (is_ok x))) [
        | inl e ↦ rw (e, on_resolved) (unmoved r)
        | inr e ↦ rw (e, on_resolved) (send_payload_to_ip-Stands payload client t a r)
      ]

  dispatch-Stands :
      (found : Option TargetAddress) (bytes : Bytes) (client : u.Endpoint) (r : Relay u)
      → Stands r (dispatch u found bytes client r)
  unfolding dispatch
  dispatch-Stands none bytes client r = unmoved r
  dispatch-Stands (some t) bytes client r = elim (Bool-cases (is_domain t.type)) [
    | inl e ↦ rw (e, dispatch) (record { running = refl; socket_open = refl; master_key = refl })
    | inr e ↦ elim (Option-cases (u.ipaddr_aton t.host)) [
      | inl f ↦ rw (e, f, dispatch) (unmoved r)
      | inr (ip, f) ↦ rw (e, f, dispatch) (send_payload_to_ip-Stands bytes client t ip r)
    ]
  ]

module _ (c : Crypto) (u : Stack) where
  send_to_lwip-Stands :
      (datagram : Bytes) (client : u.Endpoint) (r : Relay u)
      → Stands u r (send_to_lwip c u datagram client r)
  unfolding send_to_lwip
  send_to_lwip-Stands datagram client r =
      elim (Result-cases (decrypt_udp_packet c datagram (make_session r.master_key))) [
        | inr (x, e) ↦ rw (e, send_to_lwip) (unmoved u r)
        | inl (found, e) ↦ elim (Option-cases found) [
          | inl f ↦ rw (e, f, send_to_lwip) (unmoved u r)
          | inr (plain, f) ↦
              rw (e, f, send_to_lwip)
                (dispatch-Stands u (parse_ss_address plain).0 (parse_ss_address plain).1 client r)
        ]
      ]

  on_receive-Stands :
      (found : Option (Bytes × u.Endpoint)) (r : Relay u) → Stands u r (on_receive c u found r)
  unfolding on_receive
  on_receive-Stands none r = receive_loop-Stands u r
  on_receive-Stands (some (datagram, client)) r =
      let r1 = send_to_lwip c u datagram client r in
      in_turn u r r1 (receive_loop u r1) (send_to_lwip-Stands datagram client r)
        (receive_loop-Stands u r1)

module _ (c : Crypto) (a : Asio) (u : Stack) where
  on_udp_recv-Stands :
      (draw : Option Bytes) (m : Option (Mapping u)) (payload : Option Bytes) (ip : u.Ip) (port : ℕ)
      (r : Relay u)
      → Stands u r (on_udp_recv c a u draw m payload ip port r).0
  unfolding on_udp_recv send_to_client
  on_udp_recv-Stands draw none payload ip port r = unmoved u r
  on_udp_recv-Stands draw (some m) none ip port r = unmoved u r
  on_udp_recv-Stands draw (some m) (some payload) ip port r = record {
    running = ground arith;
    socket_open = ground arith;
    master_key = ground arith;
  }

  pub step-Stands :
      (e : Event u) (r : Relay u) → is_completion u e ≡ true → Stands u r (step c a u e r)
  unfolding step
  step-Stands started r h = absurd (ground arith)
  step-Stands stopped r h = absurd (ground arith)
  step-Stands (received found) r h = on_receive-Stands c u found r
  step-Stands (resolved token payload client t x ip) r h =
      on_resolved-Stands u token payload client t x ip r
  step-Stands (idle key) r h = erase_mapping-Stands u key r
  step-Stands (came_back draw m payload ip port) r h = on_udp_recv-Stands draw m payload ip port r
