-- ===== src/OpenVpn/Ordered.antt =====
-- No packet is made up, sent twice or overtaken on its way from lwIP to the OpenVPN core.
use ovpn2ss.Common.{
  ℕ, zero, suc, ◌<◌, ◌≡◌, refl, ◌⊎◌, inl, inr, Bool, true, false, not, ◌||◌, none, some, Bytes,
  List, ◌∷◌, [], ◌++◌, is_empty, length, All, arith, Bool-cases, same, codes, Option-cases, All-map,
}
use ovpn2ss.Runtime
use ovpn2ss.Runtime.Net.{Net}
use ovpn2ss.Runtime.Packets.{emit_packet, on_injected, inject_l3_packet}
use ovpn2ss.Runtime.Emitting.{is_emission, step-emitted}
use ovpn2ss.OpenVpn.TunBuilder.{tun_builder_teardown}
use ovpn2ss.OpenVpn.Tunnel.{
  disconnect, MemoryTun, modify, post_packet, run_posted, Tunnel, stop_tun, set_disconnect,
  inject_from_openvpn, tun_send, run_injected, core_inject, send_l3_packet, emit, event, log, stop,
}
use ovpn2ss.OpenVpn.Traced.{
  IsTraced, disconnect-IsTraced, run_posted-IsTraced, skip-IsTraced, post_packet-IsTraced,
}
use ovpn2ss.OpenVpn.Callbacks.{
  length-modify, IsOrdered, kept-IsOrdered, modified-IsOrdered, notify_tun_down-IsOrdered,
  tun_start-IsOrdered, made-IsOrdered,
}
use ovpn2ss.OpenVpn.Events.{
  Event, runs, stopped, resets, made, sets_ready, sets_disconnect, happened, tun_started,
  tun_stopped, tun_disconnected, ran_posted, sent, logged, ran_injected, on_lwip, lwip_step, step,
  Reached, here, more,
}

-- One of the tunnels is given the packet that is emitted.
posted-IsTraced :
    (em : List Bytes) (p : Bytes) (i : ℕ) (ms : List MemoryTun)
    → All (IsTraced em) ms
    → All (IsTraced (em ++ p ∷ [])) (modify i (post_packet p) ms)
posted-IsTraced em p i [] a = tt
posted-IsTraced em p zero (m ∷ ms) (v, a) =
    (post_packet-IsTraced em p m v, All-map _ _ ms (skip-IsTraced em p) a)
posted-IsTraced em p (suc i) (m ∷ ms) (v, a) = (skip-IsTraced em p m v, posted-IsTraced em p i ms a)

module _ (n : Net) where
  core_inject-IsOrdered :
      (em : List Bytes) (p : Bytes) (t : Tunnel n)
      → t.builder.lwip.emitted ≡ em ++ p ∷ []
      → All (IsTraced em) t.tuns
      → ((i : ℕ) → t.memory_tun ≡ some i → i < length t.tuns)
      → IsOrdered n (send_l3_packet n p t)
  unfolding send_l3_packet core_inject
  core_inject-IsOrdered em p t e a c =
      let skipped : IsOrdered n t = record {
        traced = rw e (All-map _ _ t.tuns (skip-IsTraced em p) a);
        current = c;
      } in
      elim (Bool-cases (not t.running || is_empty p)) [
        | inl f ↦ rw (f, send_l3_packet) skipped
        | inr f ↦ elim (Option-cases t.memory_tun) [
          | inl g ↦ rw (f, send_l3_packet, g, core_inject) skipped
          | inr (i, g) ↦
              rw (f, send_l3_packet, g, core_inject)
                (record {
                  traced = rw e (posted-IsTraced em p i t.tuns a);
                  current = λ j h. omega (arith, c j h, length-modify i (post_packet p) t.tuns);
                })
        ]
      ]

  -- A packet that is not given to the output leaves all as it is.
  emit_refused :
      (whole : Bool) (p : Bytes) (t : Tunnel n)
      → (t.builder.lwip.has_output ≡ false) ⊎ (whole ≡ false)
      → emit n whole p t ≡ t
  unfolding emit emit_packet
  emit_refused whole p t h = ground arith

  abbrev emitted_also : Bytes → Tunnel n → Tunnel n
  emitted_also p t = record t {
    builder = record t.builder {
      lwip = record t.builder.lwip { emitted = t.builder.lwip.emitted ++ p ∷ [] };
    };
  }

  emit_sends :
      (p : Bytes) (t : Tunnel n)
      → t.builder.lwip.has_output ≡ true
      → emit n true p t ≡ send_l3_packet n p (emitted_also p t)
  unfolding emit emit_packet
  emit_sends p t h = ground arith

  emit-IsOrdered :
      (whole : Bool) (p : Bytes) (t : Tunnel n) → IsOrdered n t → IsOrdered n (emit n whole p t)
  emit-IsOrdered false p t v = rw (emit_refused false p t (inr refl)) v
  emit-IsOrdered true p t v = elim (Bool-cases t.builder.lwip.has_output) [
    | inr h ↦ rw (emit_refused true p t (inl h)) v
    | inl h ↦
        rw (emit_sends p t h) (
          core_inject-IsOrdered t.builder.lwip.emitted p (emitted_also p t) refl v.traced v.current)
  ]

  lwip_kept :
      (e : Runtime.Events.Event) (t : Tunnel n)
      → is_emission e ≡ false
      → IsOrdered n t
      → IsOrdered n (record t {
        builder = record t.builder { lwip = Runtime.Events.step n e t.builder.lwip };
      })
  lwip_kept e t h v =
      kept-IsOrdered n t _
        (record { tuns = refl; memory_tun = refl; emitted = step-emitted n e t.builder.lwip h }) v

  lwip_step-IsOrdered :
      (e : Runtime.Events.Event) (t : Tunnel n) → IsOrdered n t → IsOrdered n (lwip_step n e t)
  unfolding lwip_step
  lwip_step-IsOrdered (Runtime.Events.emitted whole packet) t v = emit-IsOrdered whole packet t v
  lwip_step-IsOrdered Runtime.Events.started t v = lwip_kept Runtime.Events.started t refl v
  lwip_step-IsOrdered Runtime.Events.stopped t v = lwip_kept Runtime.Events.stopped t refl v
  lwip_step-IsOrdered (Runtime.Events.ticked failed) t v =
      lwip_kept (Runtime.Events.ticked failed) t refl v
  lwip_step-IsOrdered (Runtime.Events.configured config) t v =
      lwip_kept (Runtime.Events.configured config) t refl v
  lwip_step-IsOrdered (Runtime.Events.configured_with_output config) t v =
      lwip_kept (Runtime.Events.configured_with_output config) t refl v
  lwip_step-IsOrdered (Runtime.Events.injected token packet) t v =
      lwip_kept (Runtime.Events.injected token packet) t refl v
  lwip_step-IsOrdered (Runtime.Events.resolves h host) t v =
      lwip_kept (Runtime.Events.resolves h host) t refl v
  lwip_step-IsOrdered (Runtime.Events.timed_out token id) t v =
      lwip_kept (Runtime.Events.timed_out token id) t refl v
  lwip_step-IsOrdered (Runtime.Events.heard q packet) t v =
      lwip_kept (Runtime.Events.heard q packet) t refl v
  lwip_step-IsOrdered (Runtime.Events.drawn_elsewhere id) t v =
      lwip_kept (Runtime.Events.drawn_elsewhere id) t refl v

  run_injected-IsOrdered :
      (token : Bool) (t : Tunnel n) → IsOrdered n t → IsOrdered n (run_injected n token t)
  unfolding run_injected on_injected inject_l3_packet
  run_injected-IsOrdered token t v =
      kept-IsOrdered n t (run_injected n token t)
        (record { tuns = ground arith; memory_tun = ground arith; emitted = ground arith }) v

  step-IsOrdered : (e : Event n) (t : Tunnel n) → IsOrdered n t → IsOrdered n (step n e t)
  unfolding step stop_tun set_disconnect tun_send inject_from_openvpn event log stop
  step-IsOrdered (runs on) t v =
      kept-IsOrdered n t _ (record { tuns = refl; memory_tun = refl; emitted = refl }) v
  step-IsOrdered stopped t v =
      kept-IsOrdered n t (stop n t)
        (record { tuns = ground arith; memory_tun = ground arith; emitted = ground arith }) v
  step-IsOrdered resets t v = record { traced = v.traced; current = λ i e. ground arith }
  step-IsOrdered made t v = made-IsOrdered n t v
  step-IsOrdered (sets_ready handler) t v =
      kept-IsOrdered n t _ (record { tuns = refl; memory_tun = refl; emitted = refl }) v
  step-IsOrdered (sets_disconnect handler) t v =
      kept-IsOrdered n t _ (record { tuns = refl; memory_tun = refl; emitted = refl }) v
  step-IsOrdered (happened name) t v = elim (Bool-cases (same name (codes "DISCONNECTED"))) [
    | inr e ↦ rw (e, event) v
    | inl e ↦
        rw (e, event)
          (notify_tun_down-IsOrdered n (record t { memory_tun = none })
            (record { traced = v.traced; current = λ i e. ground arith }))
  ]
  step-IsOrdered (tun_started i cs throws) t v = tun_start-IsOrdered n i cs throws t v
  step-IsOrdered (tun_stopped i) t v =
      let t1 = disconnect n i t in
      let v1 =
        modified-IsOrdered n i (λ m. record m { connected = false }) t (disconnect-IsTraced _) v in
      let t2 = record t1 { builder = tun_builder_teardown n t1.builder } in
      notify_tun_down-IsOrdered n t2 (record { traced = v1.traced; current = v1.current })
  step-IsOrdered (tun_disconnected i) t v =
      notify_tun_down-IsOrdered n (disconnect n i t)
        (modified-IsOrdered n i (λ m. record m { connected = false }) t (disconnect-IsTraced _) v)
  step-IsOrdered (ran_posted i) t v = modified-IsOrdered n i run_posted t (run_posted-IsTraced _) v
  step-IsOrdered (sent packet) t v =
      kept-IsOrdered n t (tun_send n packet t)
        (record { tuns = ground arith; memory_tun = ground arith; emitted = ground arith }) v
  step-IsOrdered (logged text) t v =
      kept-IsOrdered n t (log n text t)
        (record { tuns = ground arith; memory_tun = ground arith; emitted = ground arith }) v
  step-IsOrdered (ran_injected token) t v = run_injected-IsOrdered token t v
  step-IsOrdered (on_lwip e) t v = lwip_step-IsOrdered e t v

  -- From a client without tunnels, whatever calls, callbacks of the OpenVPN core, posted calls and
  -- events of its LwipRuntime follow: the packets that a tunnel has given to its parent by
  -- tun_recv, with those in the calls that it has posted behind them, come from those that lwIP has
  -- emitted by leaving out some, so none is made up, sent twice or overtaken; a tunnel whose parent
  -- was not told that it is connected has given and posted nothing; and the core's current tunnel
  -- is one that was made.
  pub Reached-IsOrdered :
      (t0 t : Tunnel n) → t0.tuns ≡ [] → t0.memory_tun ≡ none → Reached n t0 t → IsOrdered n t
  Reached-IsOrdered t0 t a b (here e) =
      rw e (record { traced = rw a tt; current = λ i h. ground (arith, b) })
  Reached-IsOrdered t0 t a b (more {t = before} e run is) =
      rw is (step-IsOrdered e before (Reached-IsOrdered t0 before a b run))
