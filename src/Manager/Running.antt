-- ===== src/Manager/Running.antt =====
-- What holds of an instance whatever happens to it, while the manager runs and behind its stop.
use ovpn2ss.Common.{
  ◌≡◌, refl, ◌∙◌, ap, sym, inl, inr, Bool, true, false, none, Bytes, [], ◌∷◌, ◌++◌, map, drop,
  length, arith, Bool-cases, drop-append, append-nil, drop_all,
}
use ovpn2ss.Aead.Crypto.{Crypto}
use ovpn2ss.Address.{Asio}
use ovpn2ss.Runtime.Net.{Net}
use ovpn2ss.UdpRelay.Stack.{Stack}
use ovpn2ss.UdpRelay
use ovpn2ss.OpenVpn
use ovpn2ss.OpenVpn.Tunnel.{Tunnel, Notice}
use ovpn2ss.OpenVpn.Quiet.{IsSteady}
use ovpn2ss.OpenVpn.Steady.{step-IsSteady}
use ovpn2ss.Inbound
use ovpn2ss.Inbound.Listeners.{Opening, Inbound}
use ovpn2ss.Manager.Config.{InstanceConfig}
use ovpn2ss.Manager.Instance.{stop_job, job_of, Instance, new_instance, post_stop, on_vpn}
use ovpn2ss.Manager.Events.{
  Event, ran, stops, died, was_aborted, vpn_event, accepted, udp_event, step, Reached, here, more,
}
use ovpn2ss.Manager.Jobs.{IsStopped, IsConsistent, requeued, run_next-IsConsistent}
use ovpn2ss.Manager.Queue.{
  followed, last_ready, last_ready-append_one, followed-append_one, has_stop-append_one,
  has_stop-stop, later-append_one, first-append_one, job_of-is_start,
}

module _ (n : Net) (u : Stack) where
  post_stop_on :
      (i : Instance n u)
      → i.running ≡ true
      → post_stop n u i ≡ record i { running = false; jobs = i.jobs ++ stop_job ∷ [] }
  unfolding post_stop
  post_stop_on i h = ground arith

  post_stop_off : (i : Instance n u) → i.running ≡ false → post_stop n u i ≡ i
  unfolding post_stop
  post_stop_off i h = ground arith

  post_stop-IsConsistent :
      (i : Instance n u) → IsConsistent n u i → IsConsistent n u (post_stop n u i)
  post_stop-IsConsistent i v = elim (Bool-cases i.running) [
    | inr e ↦ rw (post_stop_off i e) v
    | inl e ↦ rw (post_stop_on i e) (record {
      first = first-append_one i.jobs stop_job refl v.first;
      follows = λ h. absurd (ground arith);
      unstopped = λ h. absurd (ground arith);
      stopped = λ h. inl (has_stop-stop i.jobs);
    })
  ]

  -- What is stopped stays so when the client changes by a callback.
  IsStopped-vpn :
      (i : Instance n u) (vpn : Tunnel n)
      → IsSteady n i.vpn vpn
      → IsStopped n u i
      → IsStopped n u (record i { vpn = vpn })
  IsStopped-vpn i vpn k s = record {
    started = s.started;
    acceptor_open = s.acceptor_open;
    udp = s.udp;
    vpn_running = k.running s.vpn_running;
    lwip_running = k.lwip_running s.lwip_running;
    ready_handler = k.ready_handler ∙ s.ready_handler;
    disconnect_handler = k.disconnect_handler ∙ s.disconnect_handler;
  }

  -- The client has changed, and no handler was called.
  silent-IsConsistent :
      (i : Instance n u) (vpn : Tunnel n)
      → IsSteady n i.vpn vpn
      → vpn.notified ≡ i.vpn.notified
      → IsConsistent n u i
      → IsConsistent n u (record i { vpn = vpn })
  silent-IsConsistent i vpn k e v = record {
    first = v.first;
    follows = λ h. v.follows h ∙ ap (last_ready false) (sym e);
    unstopped = v.unstopped;
    stopped = λ h. elim (v.stopped h) [
      | inl s ↦ inl s
      | inr (s, later) ↦ inr (IsStopped-vpn i vpn k s, later)
    ];
  }

  -- A handler is called, and its call is posted.
  told-IsConsistent :
      (i : Instance n u) (vpn : Tunnel n) (x : Notice)
      → IsSteady n i.vpn vpn
      → vpn.notified ≡ i.vpn.notified ++ x ∷ []
      → IsConsistent n u i
      → IsConsistent n u (record i { vpn = vpn; jobs = i.jobs ++ job_of x ∷ [] })
  told-IsConsistent i vpn x k e v = record {
    first = first-append_one i.jobs (job_of x) (job_of-is_start x) v.first;
    follows = λ h.
        followed-append_one i.ss.started i.jobs x
        ∙ sym (last_ready-append_one false i.vpn.notified x)
        ∙ ap (last_ready false) (sym e);
    unstopped = λ h. has_stop-append_one i.jobs x ∙ v.unstopped h;
    stopped = λ h. elim (v.stopped h) [
      | inl s ↦ inl (has_stop-append_one i.jobs x ∙ s)
      | inr (s, later) ↦ inr (
        requeued n u _ (i.jobs ++ job_of x ∷ []) (IsStopped-vpn i vpn k s),
        later-append_one i.jobs (job_of x) (job_of-is_start x) later,
      )
    ];
  }

  on_vpn_silent :
      (e : OpenVpn.Events.Event n) (i : Instance n u)
      → (OpenVpn.Events.step n e i.vpn).notified ≡ i.vpn.notified
      → on_vpn n u e i ≡ record i { vpn = OpenVpn.Events.step n e i.vpn }
  unfolding on_vpn
  on_vpn_silent e i h =
      let vpn = OpenVpn.Events.step n e i.vpn in
      let d : drop (length i.vpn.notified) vpn.notified ≡ [] =
        ap (drop (length i.vpn.notified)) h ∙ drop_all _ i.vpn.notified (omega arith) in
      ap (λ ns. record i { vpn = vpn; jobs = i.jobs ++ map job_of ns }) d
      ∙ ap (λ js. record i { vpn = vpn; jobs = js }) (append-nil i.jobs)

  on_vpn_told :
      (e : OpenVpn.Events.Event n) (i : Instance n u) (x : Notice)
      → (OpenVpn.Events.step n e i.vpn).notified ≡ i.vpn.notified ++ x ∷ []
      → on_vpn n u e i
        ≡ record i { vpn = OpenVpn.Events.step n e i.vpn; jobs = i.jobs ++ job_of x ∷ [] }
  unfolding on_vpn
  on_vpn_told e i x h =
      let vpn = OpenVpn.Events.step n e i.vpn in
      let d : drop (length i.vpn.notified) vpn.notified ≡ x ∷ [] =
        ap (drop (length i.vpn.notified)) h ∙ drop-append _ i.vpn.notified (x ∷ []) refl in
      ap (λ ns. record i { vpn = vpn; jobs = i.jobs ++ map job_of ns }) d

  on_vpn-IsConsistent :
      (e : OpenVpn.Events.Event n) (i : Instance n u)
      → OpenVpn.Steady.is_callback n e ≡ true
      → IsConsistent n u i
      → IsConsistent n u (on_vpn n u e i)
  on_vpn-IsConsistent e i h v =
      let k = step-IsSteady n e i.vpn h in
      elim k.notified [
        | inl s ↦ rw (on_vpn_silent e i s) (silent-IsConsistent i _ k s v)
        | inr (x, s) ↦ rw (on_vpn_told e i x s) (told-IsConsistent i _ x k s v)
      ]

  -- The listeners complete an accept, or their UDP session has an event.
  accepts_still :
      (failed : Bool) (r : Inbound u)
      → let r' = Inbound.Events.run_accept u failed r in
        (r'.started ≡ r.started) × (r'.acceptor_open ≡ r.acceptor_open) × (r'.udp ≡ r.udp)
  unfolding Inbound.Events.run_accept Inbound.Listeners.on_accept
  accepts_still failed r = ground arith

  aborts_still :
      (r : Inbound u)
      → let r' = Inbound.Events.run_aborted u r in
        (r'.started ≡ r.started) × (r'.acceptor_open ≡ r.acceptor_open) × (r'.udp ≡ r.udp)
  unfolding Inbound.Events.run_aborted Inbound.Listeners.on_accept
  aborts_still r = ground arith

  serving-IsConsistent :
      (i : Instance n u) (ss : Inbound u)
      → ss.started ≡ i.ss.started
      → ss.acceptor_open ≡ i.ss.acceptor_open
      → (i.ss.udp ≡ none → ss.udp ≡ none)
      → IsConsistent n u i
      → IsConsistent n u (record i { ss = ss })
  serving-IsConsistent i ss a b d v = record {
    first = v.first;
    follows = λ h. ap (λ x. followed x i.jobs) a ∙ v.follows h;
    unstopped = v.unstopped;
    stopped = λ h. elim (v.stopped h) [
      | inl s ↦ inl s
      | inr (s, later) ↦ inr (
        record {
          started = a ∙ s.started;
          acceptor_open = b ∙ s.acceptor_open;
          udp = d s.udp;
          vpn_running = s.vpn_running;
          lwip_running = s.lwip_running;
          ready_handler = s.ready_handler;
          disconnect_handler = s.disconnect_handler;
        },
        later,
      )
    ];
  }

  -- The thread has ended.
  idle : (i : Instance n u) → IsStopped n u i → IsStopped n u (record i { alive = false })
  idle i s = record {
    started = s.started;
    acceptor_open = s.acceptor_open;
    udp = s.udp;
    vpn_running = s.vpn_running;
    lwip_running = s.lwip_running;
    ready_handler = s.ready_handler;
    disconnect_handler = s.disconnect_handler;
  }

module _ (c : Crypto) (a : Asio) (n : Net) (u : Stack) where
  udp_still :
      (e : UdpRelay.Events.Event u) (r : Inbound u)
      → let r' = Inbound.Events.on_udp_event c a u e r in
        (r'.started ≡ r.started)
        × (r'.acceptor_open ≡ r.acceptor_open)
        × (r.udp ≡ none → r'.udp ≡ none)
  unfolding Inbound.Events.on_udp_event
  udp_still e r = ground arith

  step-IsConsistent :
      (e : Event n u) (i : Instance n u) → IsConsistent n u i → IsConsistent n u (step c a n u e i)
  unfolding step
  step-IsConsistent (ran answers) i v = run_next-IsConsistent n u answers i v
  step-IsConsistent stops i v = post_stop-IsConsistent n u i v
  step-IsConsistent died i v = record {
    first = v.first;
    follows = v.follows;
    unstopped = v.unstopped;
    stopped =
        λ h. elim (v.stopped h) [ inl s ↦ inl s | inr (s, later) ↦ inr (idle n u i s, later) ];
  }
  step-IsConsistent (vpn_event e h) i v = on_vpn-IsConsistent n u e i h v
  step-IsConsistent (accepted failed) i v =
      let (s, o, d) = accepts_still n u failed i.ss in
      serving-IsConsistent n u i _ s o (λ h. d ∙ h) v
  step-IsConsistent was_aborted i v =
      let (s, o, d) = aborts_still n u i.ss in serving-IsConsistent n u i _ s o (λ h. d ∙ h) v
  step-IsConsistent (udp_event e) i v =
      let (s, o, d) = udp_still e i.ss in serving-IsConsistent n u i _ s o d v

  pub Reached-IsConsistent :
      (config : InstanceConfig) (key : Bytes) (s : n.State) (s' : u.State) (i : Instance n u)
      → Reached c a n u (new_instance n u config key s s') i
      → IsConsistent n u i
  Reached-IsConsistent config key s s' i (here e) = rw e (record {
    first = tt;
    follows = λ h. refl;
    unstopped = λ h. refl;
    stopped = λ h. absurd (ground arith);
  })
  Reached-IsConsistent config key s s' i (more {i = before} e run is) =
      rw is (step-IsConsistent e before (Reached-IsConsistent config key s s' before run))
