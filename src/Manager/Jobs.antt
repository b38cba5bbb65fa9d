-- ===== src/Manager/Jobs.antt =====
-- The invariant of an instance, and the calls that its thread takes.
use ovpn2ss.Common.{
  ◌≡◌, refl, ◌∙◌, ap, sym, ◌⊎◌, inl, inr, Bool, true, false, none, List, [], ◌∷◌, arith, Bool-cases,
}
use ovpn2ss.Runtime
use ovpn2ss.Runtime.Net.{Net}
use ovpn2ss.UdpRelay.Stack.{Stack}
use ovpn2ss.OpenVpn
use ovpn2ss.OpenVpn.Tunnel.{Tunnel, Notice, ready, down}
use ovpn2ss.Inbound
use ovpn2ss.Inbound.Listeners.{Opening, Inbound}
use ovpn2ss.Manager.Instance.{
  Job, start_job, ready_job, down_job, stop_job, Answers, job_of, Instance, vpn_start, run_start,
  run_ready, run_down, run_stop, run_job, run_next,
}
use ovpn2ss.Manager.Queue.{
  AreLater, IsOnlyFirst, has_stop, followed, is_ready, last_ready, has_stop_handler,
  followed_handler, later_first,
}

module _ (n : Net) (u : Stack) where
  pub record IsStopped (i : Instance n u) : Type 0 where
    pub started : i.ss.started ≡ false
    pub acceptor_open : i.ss.acceptor_open ≡ false
    pub udp : i.ss.udp ≡ none
    pub vpn_running : i.vpn.running ≡ false
    pub lwip_running : i.vpn.builder.lwip.running ≡ false
    pub ready_handler : i.vpn.ready_handler ≡ false
    pub disconnect_handler : i.vpn.disconnect_handler ≡ false

  pub record IsConsistent (i : Instance n u) : Type 0 where
    pub first : IsOnlyFirst i.jobs
    pub follows : i.running ≡ true → followed i.ss.started i.jobs ≡ last_ready false i.vpn.notified
    pub unstopped : i.running ≡ true → has_stop i.jobs ≡ false
    pub stopped : i.running ≡ false → (has_stop i.jobs ≡ true) ⊎ (IsStopped i × AreLater i.jobs)

  run_stop-IsStopped : (i : Instance n u) → IsStopped (run_stop n u i)
  unfolding run_stop OpenVpn.Tunnel.stop Runtime.Packets.stop Inbound.Listeners.stop
  run_stop-IsStopped i = record {
    started = ground arith;
    acceptor_open = ground arith;
    udp = ground arith;
    vpn_running = ground arith;
    lwip_running = ground arith;
    ready_handler = ground arith;
    disconnect_handler = ground arith;
  }

  run_start_keeps :
      (a : Answers) (i : Instance n u)
      → let i' = run_start n u a i in
        (i'.ss ≡ i.ss)
        × (i'.running ≡ i.running)
        × (i'.jobs ≡ i.jobs)
        × (i'.vpn.notified ≡ i.vpn.notified)
  unfolding run_start vpn_start
  run_start_keeps a i = ground arith

  started_by :
      (opening : Opening) (bound : Bool) (r : Inbound u)
      → (Inbound.Listeners.start u opening bound r).0.started ≡ true
  unfolding Inbound.Listeners.start Inbound.Listeners.open_tcp_acceptor Inbound.Listeners.start_udp
  started_by opening bound r = ground arith

  run_ready_keeps :
      (opening : Opening) (bound : Bool) (i : Instance n u)
      → let i' = run_ready n u opening bound i in
        (i.running ≡ true → i'.ss.started ≡ true)
        × (i'.running ≡ i.running)
        × (i'.jobs ≡ i.jobs)
        × (i'.vpn ≡ i.vpn)
        × (i.running ≡ false → i' ≡ i)
  unfolding run_ready
  run_ready_keeps opening bound i = ground (arith, started_by opening bound i.ss)

  stopped_by : (r : Inbound u) → (Inbound.Listeners.stop u r).started ≡ false
  unfolding Inbound.Listeners.stop
  stopped_by r = ground arith

  run_down_keeps :
      (i : Instance n u)
      → let i' = run_down n u i in
        (i.running ≡ true → i'.ss.started ≡ false)
        × (i'.running ≡ i.running)
        × (i'.jobs ≡ i.jobs)
        × (i'.vpn ≡ i.vpn)
        × (i.running ≡ false → i' ≡ i)
  unfolding run_down
  run_down_keeps i = ground (arith, stopped_by i.ss)

  -- The first call is taken from the queue.
  popped_start :
      (a : Answers) (i : Instance n u) (js : List Job)
      → i.jobs ≡ start_job ∷ js
      → IsConsistent i
      → IsConsistent (run_start n u a (record i { jobs = js }))
  popped_start a i js e v =
      let (ss, running, jobs, notified) = run_start_keeps a (record i { jobs = js }) in
      let first : AreLater js = rw e at v.first in
      record {
        first = rw jobs (later_first js first);
        follows = λ h. ground (arith, v.follows, e, ss, running, jobs, notified);
        unstopped = λ h. ground (arith, v.unstopped, e, running, jobs);
        stopped = λ h. elim (v.stopped (sym running ∙ h)) [
          | inl s ↦ inl (ground (arith, e, jobs))
          | inr (s, later) ↦
              let later' : AreLater (start_job ∷ js) = rw e at later in
              absurd (ground (arith, later'.0))
        ];
      }

  pub requeued :
      (i : Instance n u) (js : List Job) → IsStopped i → IsStopped (record i { jobs = js })
  requeued i js s = record {
    started = s.started;
    acceptor_open = s.acceptor_open;
    udp = s.udp;
    vpn_running = s.vpn_running;
    lwip_running = s.lwip_running;
    ready_handler = s.ready_handler;
    disconnect_handler = s.disconnect_handler;
  }

  -- A call of a handler leaves the listeners started, or not.
  popped_handler :
      (x : Notice) (i i' : Instance n u) (js : List Job)
      → i.jobs ≡ job_of x ∷ js
      → (i.running ≡ true → i'.ss.started ≡ is_ready x)
      → i'.running ≡ i.running
      → i'.jobs ≡ js
      → i'.vpn ≡ i.vpn
      → (i.running ≡ false → i' ≡ record i { jobs = js })
      → IsConsistent i
      → IsConsistent i'
  popped_handler x i i' js e started running jobs vpn idle v =
      let first : AreLater js = rw e at v.first in
      let notified = ap (λ (t : Tunnel n). t.notified) vpn in
      record {
        first = rw jobs (later_first js first);
        follows = λ h.
            let on = sym running ∙ h in
            let before = v.follows on in
            ap (λ b. followed b i'.jobs) (started on)
            ∙ ap (followed (is_ready x)) jobs
            ∙ sym (followed_handler i.ss.started x js)
            ∙ sym (ap (followed i.ss.started) e)
            ∙ before
            ∙ ap (last_ready false) (sym notified);
        unstopped = λ h.
            ap has_stop jobs
            ∙ sym (has_stop_handler x js)
            ∙ sym (ap has_stop e)
            ∙ v.unstopped (sym running ∙ h);
        stopped = λ h.
            let off = sym running ∙ h in
            elim (v.stopped off) [
              | inl s ↦
                  inl (ap has_stop jobs ∙ sym (has_stop_handler x js) ∙ sym (ap has_stop e) ∙ s)
              | inr (s, later) ↦ inr (rw (idle off) (requeued i js s), rw jobs first)
            ];
      }

  popped_stop :
      (i : Instance n u) (js : List Job)
      → i.jobs ≡ stop_job ∷ js
      → IsConsistent i
      → IsConsistent (run_stop n u (record i { jobs = js }))
  unfolding run_stop
  popped_stop i js e v =
      let first : AreLater js = rw e at v.first in
      record {
        first = later_first js first;
        follows = λ h. absurd (ground (arith, v.unstopped h, e));
        unstopped = λ h. absurd (ground (arith, v.unstopped h, e));
        stopped = λ h. inr (run_stop-IsStopped (record i { jobs = js }), first);
      }

  popped :
      (a : Answers) (j : Job) (i : Instance n u) (js : List Job)
      → i.jobs ≡ j ∷ js
      → IsConsistent i
      → IsConsistent (run_job n u a j (record i { jobs = js }))
  unfolding run_job
  popped a start_job i js e v = popped_start a i js e v
  popped a ready_job i js e v =
      let (started, running, jobs, vpn, idle) =
        run_ready_keeps a.opening a.bound (record i { jobs = js }) in
      popped_handler ready i _ js e started running jobs vpn idle v
  popped a down_job i js e v =
      let (started, running, jobs, vpn, idle) = run_down_keeps (record i { jobs = js }) in
      popped_handler down i _ js e started running jobs vpn idle v
  popped a stop_job i js e v = popped_stop i js e v

  pub next_job :
      (a : Answers) (i : Instance n u) (j : Job) (js : List Job)
      → i.alive ≡ true
      → i.jobs ≡ j ∷ js
      → run_next n u a i ≡ run_job n u a j (record i { jobs = js })
  unfolding run_next
  next_job a i j js e f = rw (f, run_next) (ground (arith, e))

  no_next :
      (a : Answers) (i : Instance n u) → (i.alive ≡ false) ⊎ (i.jobs ≡ []) → run_next n u a i ≡ i
  unfolding run_next
  no_next a i h = ground (arith, h)

  taken :
      (a : Answers) (i : Instance n u) (js : List Job)
      → i.alive ≡ true
      → i.jobs ≡ js
      → IsConsistent i
      → IsConsistent (run_next n u a i)
  taken a i [] e f v = rw (no_next a i (inr f)) v
  taken a i (j ∷ js) e f v = rw (next_job a i j js e f) (popped a j i js f v)

  pub run_next-IsConsistent :
      (a : Answers) (i : Instance n u) → IsConsistent i → IsConsistent (run_next n u a i)
  unfolding run_next
  run_next-IsConsistent a i v = elim (Bool-cases i.alive) [
    | inr e ↦ rw (no_next a i (inl e)) v
    | inl e ↦ taken a i i.jobs e refl v
  ]
