-- ===== src/UdpRelay/Accounting.antt =====
-- Every pcb that the session made is removed or belongs to one mapping, and a key has one mapping.
use ovpn2ss.Common.{
  count, ℕ, ◌%◌, ◌^◌, length, ◌≡◌, refl, inl, inr, Bool, true, not, ◌||◌, Option, none, some, Bytes,
  ◌++◌, arith, Bool-cases, Option-cases,
}
use ovpn2ss.Common.Outcome.{Result-cases}
use ovpn2ss.Aead.Crypto.{Crypto}
use ovpn2ss.Aead.Session.{make_session, decrypt_udp_packet, encrypt_udp_packet}
use ovpn2ss.Address.{TargetAddress, Asio, parse_ss_address, encode_ss_address, is_domain}
use ovpn2ss.Lwip.{Err}
use ovpn2ss.TcpRelay.Closing.{is_ok}
use ovpn2ss.UdpRelay.Stack.{Stack}
use ovpn2ss.UdpRelay.State.{Mapping, Relay, init}
use ovpn2ss.UdpRelay.Mappings.{mapping_for, stop}
use ovpn2ss.UdpRelay.Sending.{
  receive_loop, start, send_on, send_payload_to_ip, on_resolved, dispatch, send_to_lwip, on_receive,
  send_to_client, sender_of, on_udp_recv,
}
use ovpn2ss.UdpRelay.Events.{
  Event, started, stopped, received, resolved, idle, came_back, step, Reached, here, more,
}
use ovpn2ss.UdpRelay.Table.{IsSound, mapping_for-IsSound, erase_mapping-IsSound, stop-IsSound}

module _ (u : Stack) where
  send_payload_to_ip-IsSound :
      (payload : Bytes) (client : u.Endpoint) (t : TargetAddress) (ip : u.Ip) (r : Relay u)
      → IsSound u r
      → IsSound u (send_payload_to_ip u payload client t ip r)
  unfolding send_payload_to_ip send_on
  send_payload_to_ip-IsSound payload client t ip r v =
      let k = mapping_for-IsSound u client t r v in
      elim (Result-cases (mapping_for u client t r).1) [
        | inr (x, e) ↦ rw (e, send_payload_to_ip) k
        | inl (m, e) ↦
            elim (Bool-cases
              (u.pbuf_alloc (mapping_for u client t r).0.lwip (length payload % 2 ^ 16)).0) [
                | inl f ↦
                    rw (e, f, send_payload_to_ip)
                      (record { accounts = k.accounts; distinct = k.distinct })
                | inr f ↦
                    rw (e, f, send_payload_to_ip)
                      (record { accounts = k.accounts; distinct = k.distinct })
              ]
      ]

  on_resolved-IsSound :
      (token : Bool) (payload : Bytes) (client : u.Endpoint) (t : TargetAddress) (x : Err)
      (ip : Option u.Ip) (r : Relay u)
      → IsSound u r
      → IsSound u (on_resolved u token payload client t x ip r)
  unfolding on_resolved
  on_resolved-IsSound token payload client t x none r v = v
  on_resolved-IsSound token payload client t x (some a) r v =
      elim (Bool-cases (not token || not r.running || not (is_ok x))) [
        | inl e ↦ rw (e, on_resolved) v
        | inr e ↦ rw (e, on_resolved) (send_payload_to_ip-IsSound payload client t a r v)
      ]

  dispatch-IsSound :
      (found : Option TargetAddress) (bytes : Bytes) (client : u.Endpoint) (r : Relay u)
      → IsSound u r
      → IsSound u (dispatch u found bytes client r)
  unfolding dispatch
  dispatch-IsSound none bytes client r v = v
  dispatch-IsSound (some t) bytes client r v = elim (Bool-cases (is_domain t.type)) [
    | inl e ↦ rw (e, dispatch) (record { accounts = v.accounts; distinct = v.distinct })
    | inr e ↦ elim (Option-cases (u.ipaddr_aton t.host)) [
      | inl f ↦ rw (e, f, dispatch) v
      | inr (ip, f) ↦ rw (e, f, dispatch) (send_payload_to_ip-IsSound bytes client t ip r v)
    ]
  ]

  receive_loop-IsSound : (r : Relay u) → IsSound u r → IsSound u (receive_loop u r)
  unfolding receive_loop
  receive_loop-IsSound r v = elim (Bool-cases r.running) [
    | inl e ↦ rw (e, receive_loop) (record { accounts = v.accounts; distinct = v.distinct })
    | inr e ↦ rw (e, receive_loop) (record { accounts = v.accounts; distinct = v.distinct })
  ]

  pub stopped_releases :
      (r : Relay u) → IsSound u r → (p : ℕ) → count p (stop u r).made ≡ count p (stop u r).removed
  unfolding stop
  stopped_releases r x p = let v = stop-IsSound u r x in omega (arith, v.accounts p)

  pub init-IsSound : (master_key : Bytes) (s : u.State) → IsSound u (init u master_key s)
  init-IsSound key s = record { accounts = λ p. refl; distinct = tt }

  pub start-IsSound : (r : Relay u) → IsSound u r → IsSound u (start u r)
  unfolding start
  start-IsSound r v =
      receive_loop-IsSound (record r { has_token = true; running = true })
        (record { accounts = v.accounts; distinct = v.distinct })

module _ (c : Crypto) (u : Stack) where
  send_to_lwip-IsSound :
      (datagram : Bytes) (client : u.Endpoint) (r : Relay u)
      → IsSound u r
      → IsSound u (send_to_lwip c u datagram client r)
  unfolding send_to_lwip
  send_to_lwip-IsSound datagram client r v =
      elim (Result-cases (decrypt_udp_packet c datagram (make_session r.master_key))) [
        | inr (x, e) ↦ rw (e, send_to_lwip) v
        | inl (found, e) ↦ elim (Option-cases found) [
          | inl f ↦ rw (e, f, send_to_lwip) v
          | inr (plain, f) ↦
              rw (e, f, send_to_lwip)
                (dispatch-IsSound u (parse_ss_address plain).0 (parse_ss_address plain).1 client r
                  v)
        ]
      ]

  on_receive-IsSound :
      (found : Option (Bytes × u.Endpoint)) (r : Relay u)
      → IsSound u r
      → IsSound u (on_receive c u found r)
  unfolding on_receive
  on_receive-IsSound none r v = receive_loop-IsSound u r v
  on_receive-IsSound (some (datagram, client)) r v =
      receive_loop-IsSound u _ (send_to_lwip-IsSound datagram client r v)

module _ (c : Crypto) (a : Asio) (u : Stack) where
  on_udp_recv-IsSound :
      (draw : Option Bytes) (m : Option (Mapping u)) (payload : Option Bytes) (ip : u.Ip) (port : ℕ)
      (r : Relay u)
      → IsSound u r
      → IsSound u (on_udp_recv c a u draw m payload ip port r).0
  unfolding on_udp_recv send_to_client
  on_udp_recv-IsSound draw none payload ip port r v = v
  on_udp_recv-IsSound draw (some m) none ip port r v = v
  on_udp_recv-IsSound draw (some m) (some payload) ip port r v =
      elim (Result-cases (encode_ss_address a (sender_of c a u m ip port))) [
        | inr (x, e) ↦ rw (e, send_to_client) v
        | inl (front, e) ↦
            elim (Result-cases
              (encrypt_udp_packet c draw (front ++ payload) (make_session r.master_key)).1) [
                | inr (x, f) ↦ rw (e, f, send_to_client) v
                | inl (out, f) ↦
                    rw (e, f, send_to_client)
                      (record { accounts = v.accounts; distinct = v.distinct })
              ]
      ]

  pub step-IsSound : (e : Event u) (r : Relay u) → IsSound u r → IsSound u (step c a u e r)
  unfolding step
  step-IsSound started r v = start-IsSound u r v
  step-IsSound stopped r v = stop-IsSound u r v
  step-IsSound (received found) r v = on_receive-IsSound c u found r v
  step-IsSound (resolved token payload client t x ip) r v =
      on_resolved-IsSound u token payload client t x ip r v
  step-IsSound (idle key) r v = erase_mapping-IsSound u key r v
  step-IsSound (came_back draw m payload ip port) r v =
      on_udp_recv-IsSound draw m payload ip port r v

  -- In every session that is reached from a new one by any events, each pcb that was made is
  -- removed or belongs to a mapping, as often as it was made, and no two mappings have the same
  -- key.
  pub Reached-IsSound :
      (master_key : Bytes) (s : u.State) (r : Relay u)
      → Reached c a u (init u master_key s) r
      → IsSound u r
  Reached-IsSound key s r (here e) = rw e (init-IsSound u key s)
  Reached-IsSound key s r (more {r = before} e run is) =
      rw is (step-IsSound e before (Reached-IsSound key s before run))

  -- When a session that is reached from a new one by any events is stopped, every pcb that it made
  -- has been removed, as often as it was made.
  pub stop_releases :
      (master_key : Bytes) (s : u.State) (r : Relay u)
      → Reached c a u (init u master_key s) r
      → (p : ℕ) → count p (stop u r).made ≡ count p (stop u r).removed
  stop_releases key s r run = stopped_releases u r (Reached-IsSound key s r run)
