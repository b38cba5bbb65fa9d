-- ===== src/Examples/Tunnels.antt =====
-- A tunnel of src/OpenVpnClient.cpp that the OpenVPN core starts, with a packet in each direction.
use ovpn2ss.Common.{
  ◌≡◌, refl, ◌⊎◌, true, false, some, none, Bytes, List, [], ◌∷◌, ◌++◌, codes, get_elem?,
  if◌then◌else◌,
}
use ovpn2ss.Common.Int.{pos}
use ovpn2ss.Runtime
use ovpn2ss.Runtime.State.{no_config}
use ovpn2ss.OpenVpn.TunBuilder.{
  TunCall, set_mtu, set_dns_options, tun_builder_establish, tun_calls, tun_builder_new,
}
use ovpn2ss.OpenVpn.Collected.{told}
use ovpn2ss.OpenVpn.Tunnel.{
  MemoryTun, Tunnel, connect, tell, modify, ready, tun_iface_create, tun_setup_failed,
  tun_connected, tun_start,
}
use ovpn2ss.OpenVpn.Started.{tun_start_lem}
use ovpn2ss.OpenVpn.Forwarding.{
  emit_all, run_all, tun_recv_emitted, send_all, run_injected_all, inject_all, inject_tun_sent,
}
use ovpn2ss.OpenVpn.Events.{runs, made, tun_started, on_lwip, step, here, more}
use ovpn2ss.OpenVpn.Callbacks.{IsOrdered}
use ovpn2ss.OpenVpn.Ordered.{Reached-IsOrdered}
use ovpn2ss.Examples.Toy.{toy_net}

abbrev pushed : List (TunCall toy_net)
pushed =
    set_dns_options ((codes "10.8.0.1" ∷ codes "fd00::1" ∷ []) ∷ (codes "10.8.0.2" ∷ []) ∷ [])
    ∷ set_mtu (pos 1400)
    ∷ []

collects_all : told toy_net pushed ≡ record {
  addresses = [];
  ipv4_dns = codes "10.8.0.1" ∷ codes "10.8.0.2" ∷ [];
  ipv6_dns = codes "fd00::1" ∷ [];
  mtu = pos 1400;
}
collects_all = refl

abbrev unset : Tunnel toy_net
unset = record {
  builder = record { lwip = Runtime.State.init toy_net 5; pending = no_config };
  running = false;
  needs_downgrade = false;
  ready_handler = true;
  disconnect_handler = true;
  memory_tun = none;
  tuns = [];
  notified = [];
  injected = [];
  core_stops = 0;
}

abbrev begun : Tunnel toy_net
begun = step toy_net made (step toy_net (runs true) unset)

abbrev up : Tunnel toy_net
up = step toy_net (on_lwip Runtime.Events.started) (step toy_net (tun_started 0 pushed false) begun)

abbrev ping : Bytes
ping = 69 ∷ 0 ∷ 1 ∷ []

abbrev up_tun : MemoryTun
up_tun = record { connected = true; posted = []; received = []; told = tun_connected ∷ [] }

up_found : get_elem? up.tuns 0 ≡ some up_tun
unfolding step tun_builder_establish tun_calls tun_builder_new
up_found = refl

tells_ready : up.notified ≡ ready ∷ []
unfolding step tun_builder_establish tun_calls tun_builder_new
tells_ready = refl

abbrev carried : Tunnel toy_net
carried = step toy_net (on_lwip (Runtime.Events.emitted true ping)) up

carried_one : carried.tuns ≡ record up_tun { posted = ping ∷ [] } ∷ []
unfolding step tun_builder_establish tun_calls tun_builder_new
carried_one = refl

tun_start_example :
    (let t' = tun_start toy_net 0 pushed false begun in
      (t'.builder.lwip.active_config ≡ told toy_net pushed)
      × (((t'.tuns ≡ modify 0 connect begun.tuns)
            × (t'.builder.lwip.has_output ≡ true)
            × (t'.notified
                ≡ (if begun.ready_handler then begun.notified ++ ready ∷ [] else begun.notified)))
          ⊎ ((t'.tuns ≡ modify 0 (tell tun_iface_create) begun.tuns)
              × (t'.builder.lwip.has_output ≡ begun.builder.lwip.has_output)
              × (t'.notified ≡ begun.notified))))
    × (let t' = tun_start toy_net 0 pushed true begun in
        (t'.tuns ≡ modify 0 (tell tun_setup_failed) begun.tuns)
        × (t'.builder.lwip ≡ begun.builder.lwip)
        × (t'.notified ≡ begun.notified))
tun_start_example = tun_start_lem toy_net 0 pushed begun

tun_recv_emitted_example :
    get_elem? (run_all toy_net 2 0 (emit_all toy_net (ping ∷ codes "E" ∷ []) up)).tuns 0
    ≡ some (record up_tun { received = ping ∷ codes "E" ∷ [] })
unfolding step tun_builder_establish tun_calls tun_builder_new
tun_recv_emitted_example =
    tun_recv_emitted toy_net (ping ∷ codes "E" ∷ []) 0 up_tun up refl refl refl up_found refl
      (refl, (refl, tt))

inject_tun_sent_example : run_injected_all toy_net 1 (send_all toy_net (ping ∷ []) up) ≡ record up {
  builder = record up.builder { lwip = inject_all toy_net (ping ∷ []) up.builder.lwip };
}
unfolding step tun_builder_establish tun_calls tun_builder_new
inject_tun_sent_example = inject_tun_sent toy_net (ping ∷ []) up (refl, tt) refl refl

Reached-IsOrdered_example : IsOrdered toy_net carried
Reached-IsOrdered_example = Reached-IsOrdered toy_net unset carried refl refl (
    more {t = up} (on_lwip (Runtime.Events.emitted true ping))
      (more (on_lwip Runtime.Events.started)
        (more {t = begun} (tun_started 0 pushed false)
          (more made (more (runs true) (here refl) refl) refl) refl)
        refl)
      refl)
