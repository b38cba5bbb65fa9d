-- ===== src/OpenVpn/Events.antt =====
-- What can happen to an OpenVpnClient and its tunnels: calls of the client, callbacks of the OpenVPN
-- core, posted calls, and all that happens to its LwipRuntime.
use ovpn2ss.Common.{ℕ, ◌≡◌, Bool, Bytes, List}
use ovpn2ss.Runtime
use ovpn2ss.Runtime.Net.{Net}
use ovpn2ss.OpenVpn.TunBuilder.{TunCall}
use ovpn2ss.OpenVpn.Tunnel.{
  Tunnel, set_ready_handler, set_disconnect_handler, new_tun_client_obj, tun_start, stop_tun,
  set_disconnect, tun_send, run_injected, modify_tun, run_posted, emit, event, log, reset_impl,
  stop,
}

module _ (n : Net) where
  -- `runs` is the client's `running_` as start and the end of the connect loop set it.
  pub data Event : Type 0 where
    runs : Bool → Event
    stopped resets made : Event
    sets_ready sets_disconnect : Bool → Event
    tun_started : ℕ → List (TunCall n) → Bool → Event
    tun_stopped tun_disconnected ran_posted : ℕ → Event
    sent logged happened : Bytes → Event
    ran_injected : Bool → Event
    on_lwip : Runtime.Events.Event → Event

  -- A packet that lwIP emits goes to the client.
  unfoldable pub lwip_step : Runtime.Events.Event → Tunnel n → Tunnel n
  unfolding emit Runtime.Events.step
  lwip_step (Runtime.Events.emitted whole packet) t = emit n whole packet t
  lwip_step e t = record t {
    builder = record t.builder { lwip = Runtime.Events.step n e t.builder.lwip };
  }

  unfoldable pub step : Event → Tunnel n → Tunnel n
  unfolding new_tun_client_obj tun_start stop_tun set_disconnect tun_send run_injected run_posted
      event log stop lwip_step
  step (runs on) t = record t { running = on }
  step stopped t = stop n t
  step resets t = reset_impl n t
  step made t = new_tun_client_obj n t
  step (sets_ready handler) t = set_ready_handler n handler t
  step (sets_disconnect handler) t = set_disconnect_handler n handler t
  step (happened name) t = event n name t
  step (tun_started i cs throws) t = tun_start n i cs throws t
  step (tun_stopped i) t = stop_tun n i t
  step (tun_disconnected i) t = set_disconnect n i t
  step (ran_posted i) t = modify_tun n i run_posted t
  step (sent packet) t = tun_send n packet t
  step (logged text) t = log n text t
  step (ran_injected token) t = run_injected n token t
  step (on_lwip e) t = lwip_step e t

  -- `t` comes from `t0` by events.
  pub data Reached (t0 : Tunnel n) : Tunnel n → Type 0 where
    here : {t : Tunnel n} → t ≡ t0 → Reached t0 t
    more : {t t' : Tunnel n} (e : Event) → Reached t0 t → t' ≡ step e t → Reached t0 t'
