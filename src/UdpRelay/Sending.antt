-- ===== src/UdpRelay/Sending.antt =====
-- What goes from a client to its target and back.
use ovpn2ss.Common.{
  ℕ, ◌+◌, ◌^◌, ◌%◌, Bool, true, not, ◌||◌, Option, none, some, Bytes, [], ◌∷◌, ◌++◌, if◌then◌else◌,
  length, take,
}
use ovpn2ss.Common.Outcome.{Result, ok, err}
use ovpn2ss.Aead.Crypto.{Crypto}
use ovpn2ss.Aead.Session.{make_session, encrypt_udp_packet, decrypt_udp_packet}
use ovpn2ss.Address.{
  ipv4, ipv6, TargetAddress, is_domain, Asio, parse_ss_address, encode_ss_address,
}
use ovpn2ss.Lwip.{Err}
use ovpn2ss.TcpRelay.Closing.{is_ok}
use ovpn2ss.UdpRelay.Stack.{Stack}
use ovpn2ss.UdpRelay.State.{Mapping, Relay}
use ovpn2ss.UdpRelay.Mappings.{mapping_for, arm_idle_timer}

module _ (u : Stack) where
  -- receive_loop, up to the start of the receive.
  unfoldable pub receive_loop : Relay u → Relay u
  receive_loop r = if r.running then record r { receives = r.receives + 1 } else r

  unfoldable pub start : Relay u → Relay u
  unfolding receive_loop
  start r = receive_loop (record r { has_token = true; running = true })

  -- The part behind the mapping; the size is cut to a u16_t.
  unfoldable pub send_on : Mapping u → Bytes → u.Ip → ℕ → Relay u → Relay u
  send_on m payload ip port r =
      let (room, lwip) = u.pbuf_alloc r.lwip (length payload % 2 ^ 16) in
      let bytes = take (length payload % 2 ^ 16) payload in
      if room
      then record r { lwip = u.udp_sendto lwip m.pcb bytes ip port }
      else record r { lwip = lwip }

  -- What it throws is caught and forgotten.
  unfoldable pub send_payload_to_ip : Bytes → u.Endpoint → TargetAddress → u.Ip → Relay u → Relay u
  unfolding mapping_for send_on
  send_payload_to_ip payload client target ip r =
      let (r1, answer) = mapping_for u client target r in
      elim answer [ err e ↦ r1 | ok m ↦ send_on m payload ip target.port (arm_idle_timer u m r1) ]

  -- resolve_domain_then_send, up to the call; what it throws is caught by its caller.
  abbrev pub resolve_domain_then_send : TargetAddress → Relay u → Relay u
  resolve_domain_then_send target r = record r { lwip = (u.async_resolve r.lwip target.host).1 }

  -- Its handler, for a session that is still there. `token` is whether the token that the handler
  -- keeps is still set.
  unfoldable pub on_resolved :
      Bool → Bytes → u.Endpoint → TargetAddress → Err → Option u.Ip → Relay u → Relay u
  unfolding send_payload_to_ip
  on_resolved token payload client target e ip r = elim ip [
    | none ↦ r
    | some a ↦
        if not token || not r.running || not (is_ok e)
        then r
        else send_payload_to_ip payload client target a r
  ]

  -- The parts of send_to_lwip behind the parse.
  unfoldable pub dispatch : Option TargetAddress → Bytes → u.Endpoint → Relay u → Relay u
  unfolding send_payload_to_ip
  dispatch none bytes client r = r
  dispatch (some t) bytes client r =
      if is_domain t.type then resolve_domain_then_send t r else elim (u.ipaddr_aton t.host) [
        | none ↦ r
        | some ip ↦ send_payload_to_ip bytes client t ip r
      ]

module _ (c : Crypto) (u : Stack) where
  unfoldable pub send_to_lwip : Bytes → u.Endpoint → Relay u → Relay u
  unfolding dispatch
  send_to_lwip datagram client r =
      elim (decrypt_udp_packet c datagram (make_session r.master_key)) [
        | err e ↦ r
        | ok found ↦ elim found [
          | none ↦ r
          | some plain ↦
              let (target, bytes) = parse_ss_address plain in dispatch u target bytes client r
        ]
      ]

  -- The completion of a receive: an error, or a datagram with its sender.
  unfoldable pub on_receive : Option (Bytes × u.Endpoint) → Relay u → Relay u
  unfolding send_to_lwip receive_loop
  on_receive none r = receive_loop u r
  on_receive (some (datagram, client)) r = receive_loop u (send_to_lwip datagram client r)

module _ (c : Crypto) (a : Asio) (u : Stack) where
  -- The address that the client is told the payload comes from.
  abbrev pub sender_of : Mapping u → u.Ip → ℕ → TargetAddress
  sender_of m ip port =
      if is_domain m.target.type
      then record m.target { port = port }
      else record { type = if u.is_v6 ip then ipv6 else ipv4; host = u.ipaddr_ntoa ip; port = port }

  unfoldable pub send_to_client :
      Option Bytes → Mapping u → Bytes → u.Ip → ℕ → Relay u → Relay u × Result (Unit {0})
  send_to_client draw m payload ip port r = elim (encode_ss_address a (sender_of m ip port)) [
    | err e ↦ (r, err e)
    | ok front ↦ elim (encrypt_udp_packet c draw (front ++ payload) (make_session r.master_key)).1 [
      | err e ↦ (r, err e)
      | ok encrypted ↦ (record r { sent = r.sent ++ (m.client, encrypted) ∷ [] }, ok tt)
    ]
  ]

  -- on_udp_recv: the mapping and the payload, or null pointers.
  unfoldable pub on_udp_recv :
      Option Bytes
      → Option (Mapping u)
      → Option Bytes
      → u.Ip
      → ℕ
      → Relay u
      → Relay u × Result (Unit {0})
  unfolding send_to_client
  on_udp_recv draw (some m) (some payload) ip port r = send_to_client draw m payload ip port r
  on_udp_recv draw _ _ ip port r = (r, ok tt)
