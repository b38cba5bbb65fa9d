-- ===== src/OpenVpn/Steady.antt =====
-- What any callback of the OpenVPN core and of lwIP leaves alone.
use ovpn2ss.Common.{◌≡◌, refl, inl, Bool, true, false, not, arith}
use ovpn2ss.Runtime
use ovpn2ss.Runtime.Net.{Net}
use ovpn2ss.Runtime.Packets.{on_injected, inject_l3_packet}
use ovpn2ss.Runtime.Emitting.{is_start, step-running}
use ovpn2ss.OpenVpn.Tunnel.{
  Tunnel, inject_from_openvpn, tun_send, run_injected, log, new_tun_client_obj,
}
use ovpn2ss.OpenVpn.Quiet.{
  IsSteady, quiet, other_members, tun_start-IsSteady, stop_tun-IsSteady, set_disconnect-IsSteady,
  event-IsSteady, emit-IsSteady,
}
use ovpn2ss.OpenVpn.Events.{
  Event, runs, stopped, resets, made, sets_ready, sets_disconnect, happened, tun_started,
  tun_stopped, tun_disconnected, ran_posted, sent, logged, ran_injected, on_lwip, lwip_step, step,
}

-- Those of lwIP that are no call of the manager.
abbrev is_lwip_callback : Runtime.Events.Event → Bool
is_lwip_callback Runtime.Events.started = false
is_lwip_callback Runtime.Events.stopped = false
is_lwip_callback _ = true

is_start_callback : (e : Runtime.Events.Event) → is_lwip_callback e ≡ true → is_start e ≡ false
is_start_callback Runtime.Events.started h = absurd (ground arith)
is_start_callback Runtime.Events.stopped h = refl
is_start_callback (Runtime.Events.ticked failed) h = refl
is_start_callback (Runtime.Events.configured config) h = refl
is_start_callback (Runtime.Events.configured_with_output config) h = refl
is_start_callback (Runtime.Events.injected token packet) h = refl
is_start_callback (Runtime.Events.emitted whole packet) h = refl
is_start_callback (Runtime.Events.resolves x host) h = refl
is_start_callback (Runtime.Events.timed_out token id) h = refl
is_start_callback (Runtime.Events.heard q packet) h = refl
is_start_callback (Runtime.Events.drawn_elsewhere id) h = refl

module _ (n : Net) where
  -- The connect loop can end, but not begin.
  abbrev pub is_callback : Event n → Bool
  is_callback (runs on) = not on
  is_callback stopped = false
  is_callback (sets_ready handler) = false
  is_callback (sets_disconnect handler) = false
  is_callback (on_lwip e) = is_lwip_callback e
  is_callback _ = true

  -- What happens to lwIP, other than an emission.
  lwip-IsSteady :
      (e : Runtime.Events.Event) (t : Tunnel n)
      → is_start e ≡ false
      → IsSteady n t (record t {
        builder = record t.builder { lwip = Runtime.Events.step n e t.builder.lwip };
      })
  lwip-IsSteady e t h = record {
    running = λ f. f;
    lwip_running = step-running n e t.builder.lwip h;
    ready_handler = refl;
    disconnect_handler = refl;
    notified = inl refl;
  }

  lwip_step-IsSteady :
      (e : Runtime.Events.Event) (t : Tunnel n)
      → is_start e ≡ false
      → IsSteady n t (lwip_step n e t)
  unfolding lwip_step
  lwip_step-IsSteady (Runtime.Events.emitted whole packet) t h = emit-IsSteady n whole packet t
  lwip_step-IsSteady Runtime.Events.started t h = absurd (ground arith)
  lwip_step-IsSteady Runtime.Events.stopped t h = lwip-IsSteady Runtime.Events.stopped t h
  lwip_step-IsSteady (Runtime.Events.ticked failed) t h =
      lwip-IsSteady (Runtime.Events.ticked failed) t h
  lwip_step-IsSteady (Runtime.Events.configured config) t h =
      lwip-IsSteady (Runtime.Events.configured config) t h
  lwip_step-IsSteady (Runtime.Events.configured_with_output config) t h =
      lwip-IsSteady (Runtime.Events.configured_with_output config) t h
  lwip_step-IsSteady (Runtime.Events.injected token packet) t h =
      lwip-IsSteady (Runtime.Events.injected token packet) t h
  lwip_step-IsSteady (Runtime.Events.resolves x host) t h =
      lwip-IsSteady (Runtime.Events.resolves x host) t h
  lwip_step-IsSteady (Runtime.Events.timed_out token id) t h =
      lwip-IsSteady (Runtime.Events.timed_out token id) t h
  lwip_step-IsSteady (Runtime.Events.heard q packet) t h =
      lwip-IsSteady (Runtime.Events.heard q packet) t h
  lwip_step-IsSteady (Runtime.Events.drawn_elsewhere id) t h =
      lwip-IsSteady (Runtime.Events.drawn_elsewhere id) t h

  pub step-IsSteady :
      (e : Event n) (t : Tunnel n) → is_callback e ≡ true → IsSteady n t (step n e t)
  unfolding step tun_send inject_from_openvpn run_injected on_injected inject_l3_packet log
      new_tun_client_obj
  step-IsSteady (runs true) t h = absurd (ground arith)
  step-IsSteady (runs false) t h = record {
    running = λ f. refl;
    lwip_running = λ f. f;
    ready_handler = refl;
    disconnect_handler = refl;
    notified = inl refl;
  }
  step-IsSteady stopped t h = absurd (ground arith)
  step-IsSteady resets t h = quiet n t _ (other_members n t _ _ _ refl)
  step-IsSteady made t h = quiet n t _ (other_members n t _ _ _ refl)
  step-IsSteady (sets_ready handler) t h = absurd (ground arith)
  step-IsSteady (sets_disconnect handler) t h = absurd (ground arith)
  step-IsSteady (happened name) t h = event-IsSteady n name t
  step-IsSteady (tun_started i cs throws) t h = tun_start-IsSteady n i cs throws t
  step-IsSteady (tun_stopped i) t h = stop_tun-IsSteady n i t
  step-IsSteady (tun_disconnected i) t h = set_disconnect-IsSteady n i t
  step-IsSteady (ran_posted i) t h = quiet n t _ (other_members n t _ _ _ refl)
  step-IsSteady (sent packet) t h = quiet n t (tun_send n packet t) (record {
    running = ground arith;
    lwip_running = ground arith;
    ready_handler = ground arith;
    disconnect_handler = ground arith;
    notified = ground arith;
  })
  step-IsSteady (logged text) t h = quiet n t (log n text t) (record {
    running = ground arith;
    lwip_running = ground arith;
    ready_handler = ground arith;
    disconnect_handler = ground arith;
    notified = ground arith;
  })
  step-IsSteady (ran_injected token) t h = quiet n t (run_injected n token t) (record {
    running = ground arith;
    lwip_running = ground arith;
    ready_handler = ground arith;
    disconnect_handler = ground arith;
    notified = ground arith;
  })
  step-IsSteady (on_lwip e) t h = lwip_step-IsSteady e t (is_start_callback e h)
