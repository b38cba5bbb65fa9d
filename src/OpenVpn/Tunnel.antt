-- ===== src/OpenVpn/Tunnel.antt =====
-- src/OpenVpnClient.cpp beside its connect loop: the tunnel in memory that the OpenVPN core drives,
-- the callbacks of the core, the handlers of the client, and its stop; with the packets that
-- src/OpenVpnTunBuilder.cpp passes on.
use ovpn2ss.Common.{
  ℕ, zero, suc, ◌+◌, Bool, true, false, not, ◌&&◌, ◌||◌, Option, none, some, Bytes, List, [], ◌∷◌,
  ◌++◌, ◌==◌, if◌then◌else◌, is_empty, length, codes, same,
}
use ovpn2ss.Common.Int.{ℤ, pos, negsuc}
use ovpn2ss.TcpRelay.Closing.{is_ok}
use ovpn2ss.Runtime.Net.{Net}
use ovpn2ss.Runtime.Packets.{on_injected, emit_packet}
use ovpn2ss.OpenVpn.TunBuilder.{
  Builder, TunCall, tun_calls, tun_builder_new, tun_builder_establish, tun_builder_teardown,
}

-- What the parent of a tunnel is told, and which handlers of the client are called.
pub data Told : Type 0 where
  tun_connected tun_setup_failed tun_iface_create : Told

pub data Notice : Type 0 where
  ready down : Notice

-- A MemoryTunClient. The last three fields are no members: the packets in the calls that it has
-- posted, those that its parent was given by tun_recv, in order, and what else its parent was told.
pub record MemoryTun : Type 0 where
  pub connected : Bool
  pub posted : List Bytes
  pub received : List Bytes
  pub told : List Told

abbrev pub new_tun : MemoryTun
new_tun = record { connected = false; posted = []; received = []; told = [] }

-- The member of that number changed.
abbrev pub modify {ℓ} : {A : Type ℓ} → ℕ → (A → A) → List A → List A
modify i f [] = []
modify zero f (x ∷ xs) = f x ∷ xs
modify (suc i) f (x ∷ xs) = x ∷ modify i f xs

abbrev pub tell : Told → MemoryTun → MemoryTun
tell what m = record m { told = m.told ++ what ∷ [] }

abbrev pub connect : MemoryTun → MemoryTun
connect m = tell tun_connected (record m { connected = true })

-- MemoryTunClient::inject_l3_packet, up to the call that it posts, and that call for the first
-- packet that is posted.
unfoldable pub post_packet : Bytes → MemoryTun → MemoryTun
post_packet packet m =
    if not m.connected || is_empty packet then m else record m { posted = m.posted ++ packet ∷ [] }

unfoldable pub run_posted : MemoryTun → MemoryTun
run_posted m = elim m.posted [
  | [] ↦ m
  | packet ∷ rest ↦
      if m.connected
      then record m { posted = rest; received = m.received ++ packet ∷ [] }
      else record m { posted = rest }
]

abbrev starts_with : Bytes → Bytes → Bool
starts_with [] text = true
starts_with (x ∷ xs) [] = false
starts_with (x ∷ xs) (y ∷ ys) = x == y && starts_with xs ys

-- Whether text.find(part) finds it.
abbrev pub contains : Bytes → Bytes → Bool
contains part [] = is_empty part
contains part (y ∷ ys) = starts_with part (y ∷ ys) || contains part ys

abbrev pub tells_bad_cipher : Bytes → Bool
tells_bad_cipher text =
    contains (codes "bad cipher for data channel") text
    || contains (codes "server-pushed cipher") text
    || contains (codes "Problem accepting server-pushed cipher") text

module _ (n : Net) where
  -- The members of OpenVpnClient and of its CoreClient. A tunnel is known by its number in `tuns`,
  -- which holds all that were made. The last three fields are no members: the handlers that were
  -- called, the packets in the calls that post_inject_l3_packet has posted, and the calls of
  -- core.stop.
  pub record Tunnel : Type 0 where
    pub builder : Builder n
    pub running : Bool
    pub needs_downgrade : Bool
    pub ready_handler : Bool
    pub disconnect_handler : Bool
    pub memory_tun : Option ℕ
    pub tuns : List MemoryTun
    pub notified : List Notice
    pub injected : List Bytes
    pub core_stops : ℕ

  abbrev pub set_ready_handler : Bool → Tunnel → Tunnel
  set_ready_handler handler t = record t { ready_handler = handler }

  abbrev pub set_disconnect_handler : Bool → Tunnel → Tunnel
  set_disconnect_handler handler t = record t { disconnect_handler = handler }

  unfoldable pub notify_tun_ready : Tunnel → Tunnel
  notify_tun_ready t =
      if t.ready_handler then record t { notified = t.notified ++ ready ∷ [] } else t

  unfoldable pub notify_tun_down : Tunnel → Tunnel
  notify_tun_down t =
      if t.disconnect_handler then record t { notified = t.notified ++ down ∷ [] } else t

  abbrev pub modify_tun : ℕ → (MemoryTun → MemoryTun) → Tunnel → Tunnel
  modify_tun i f t = record t { tuns = modify i f t.tuns }

  -- new_tun_client_obj, with set_memory_tun.
  unfoldable pub new_tun_client_obj : Tunnel → Tunnel
  new_tun_client_obj t = record t {
    tuns = t.tuns ++ new_tun ∷ [];
    memory_tun = some (length t.tuns);
  }

  -- The part of tun_start behind the answer of tun_builder_establish.
  unfoldable pub on_established : ℕ → ℤ → Tunnel → Tunnel
  unfolding notify_tun_ready
  on_established i (pos zero) t = notify_tun_ready (modify_tun i connect t)
  on_established i (pos (suc k)) t = modify_tun i (tell tun_iface_create) t
  on_established i (negsuc k) t = modify_tun i (tell tun_iface_create) t

  -- tun_start of tunnel `i`. configure_builder is the OpenVPN core's: it makes the calls `cs`, and
  -- returns or throws.
  unfoldable pub tun_start : ℕ → List (TunCall n) → Bool → Tunnel → Tunnel
  unfolding on_established
  tun_start i cs throws t =
      let b = tun_calls n cs (tun_builder_new n t.builder) in
      let (b', answer) = tun_builder_establish n b in
      if throws
      then modify_tun i (tell tun_setup_failed) (record t { builder = b })
      else on_established i answer (record t { builder = b' })

  abbrev pub disconnect : ℕ → Tunnel → Tunnel
  disconnect i t = modify_tun i (λ m. record m { connected = false }) t

  -- stop and set_disconnect of tunnel `i`.
  unfoldable pub stop_tun : ℕ → Tunnel → Tunnel
  unfolding notify_tun_down
  stop_tun i t =
      let t1 = disconnect i t in
      notify_tun_down (record t1 { builder = tun_builder_teardown n t1.builder })

  unfoldable pub set_disconnect : ℕ → Tunnel → Tunnel
  unfolding notify_tun_down
  set_disconnect i t = notify_tun_down (disconnect i t)

  -- inject_from_openvpn, up to the call that post_inject_l3_packet posts, and tun_send.
  unfoldable pub inject_from_openvpn : Bytes → Tunnel → Tunnel
  inject_from_openvpn packet t =
      if is_empty packet then t else record t { injected = t.injected ++ packet ∷ [] }

  unfoldable pub tun_send : Bytes → Tunnel → Tunnel
  unfolding inject_from_openvpn
  tun_send packet t = if is_empty packet then t else inject_from_openvpn packet t

  -- The first of the calls that post_inject_l3_packet has posted; `token` is whether the token that
  -- it keeps is there and set.
  unfoldable pub run_injected : Bool → Tunnel → Tunnel
  run_injected token t = elim t.injected [
    | [] ↦ t
    | packet ∷ rest ↦ record t {
      injected = rest;
      builder = record t.builder { lwip = on_injected n token packet t.builder.lwip };
    }
  ]

  -- CoreClient::inject_l3_packet.
  unfoldable pub core_inject : Bytes → Tunnel → Tunnel
  unfolding post_packet
  core_inject packet t = elim t.memory_tun [
    | none ↦ t
    | some i ↦ modify_tun i (post_packet packet) t
  ]

  unfoldable pub send_l3_packet : Bytes → Tunnel → Tunnel
  unfolding core_inject
  send_l3_packet packet t = if not t.running || is_empty packet then t else core_inject packet t

  -- emit_packet of LwipRuntime, which gives the packet to send_from_lwip.
  unfoldable pub emit : Bool → Bytes → Tunnel → Tunnel
  unfolding send_l3_packet
  emit whole packet t =
      let (lwip, e) = emit_packet n whole packet t.builder.lwip in
      let t1 = record t { builder = record t.builder { lwip = lwip } } in
      if is_ok e then send_l3_packet packet t1 else t1

  -- CoreClient::event.
  unfoldable pub event : Bytes → Tunnel → Tunnel
  unfolding notify_tun_down
  event name t =
      if same name (codes "DISCONNECTED")
      then notify_tun_down (record t { memory_tun = none })
      else t

  -- CoreClient::log.
  unfoldable pub log : Bytes → Tunnel → Tunnel
  log text t =
      if not (is_empty text) && (not t.needs_downgrade && tells_bad_cipher text)
      then record t { needs_downgrade = true; core_stops = t.core_stops + 1 }
      else t

  -- `impl_.reset(new Impl(*this))`: the new core has no tunnel.
  abbrev pub reset_impl : Tunnel → Tunnel
  reset_impl t = record t { memory_tun = none }

  -- OpenVpnClient::stop.
  unfoldable pub stop : Tunnel → Tunnel
  stop t =
      if t.running
      then record t { running = false; core_stops = t.core_stops + 1 }
      else record t { running = false }
