-- ===== src/Manager/Stopping.antt =====
-- What the listeners of an instance follow, and what the stop of the manager leaves.
use ovpn2ss.Common.{◌≡◌, refl, ◌∙◌, ap, inl, inr, true, false, Bytes, List, [], ◌∷◌, length, arith}
use ovpn2ss.Aead.Crypto.{Crypto}
use ovpn2ss.Address.{Asio}
use ovpn2ss.Runtime.Net.{Net}
use ovpn2ss.UdpRelay.Stack.{Stack}
use ovpn2ss.Manager.Config.{InstanceConfig}
use ovpn2ss.Manager.Instance.{
  Job, start_job, ready_job, down_job, stop_job, Answers, Instance, new_instance, vpn_start,
  run_start, run_ready, run_down, run_stop, run_job, run_next,
}
use ovpn2ss.Manager.Events.{Reached}
use ovpn2ss.Manager.Jobs.{IsStopped, IsConsistent, run_next-IsConsistent, next_job}
use ovpn2ss.Manager.Queue.{last_ready}
use ovpn2ss.Manager.Running.{Reached-IsConsistent}

module _ (n : Net) (u : Stack) where
  -- The thread takes as many calls as there are answers.
  abbrev pub run_all : List Answers → Instance n u → Instance n u
  run_all [] i = i
  run_all (a ∷ more) i = run_all more (run_next n u a i)

  -- Behind the stop of the manager no call ends the thread.
  run_job_off :
      (a : Answers) (j : Job) (i : Instance n u)
      → i.running ≡ false
      → let i' = run_job n u a j i in
        (i'.running ≡ false) × (i'.jobs ≡ i.jobs) × (i'.alive ≡ i.alive)
  unfolding run_job run_start vpn_start run_ready run_down run_stop
  run_job_off a start_job i h = ground arith
  run_job_off a ready_job i h = ground arith
  run_job_off a down_job i h = ground arith
  run_job_off a stop_job i h = ground arith

  drains :
      (more : List Answers) (js : List Job) (i : Instance n u)
      → i.jobs ≡ js
      → IsConsistent n u i
      → i.running ≡ false
      → i.alive ≡ true
      → length more ≡ length js
      → IsConsistent n u (run_all more i)
        × ((run_all more i).running ≡ false)
        × ((run_all more i).jobs ≡ [])
  drains [] [] i q v r l e = (v, r, q)
  drains [] (j ∷ js) i q v r l e = absurd (omega arith)
  drains (a ∷ more) [] i q v r l e = absurd (omega arith)
  drains (a ∷ more) (j ∷ js) i q v r l e =
      let next = next_job n u a i j js l q in
      let (r', q', l') = run_job_off a j (record i { jobs = js }) r in
      drains more js (run_next n u a i) (ap (λ (x : Instance n u). x.jobs) next ∙ q')
        (run_next-IsConsistent n u a i v) (ap (λ (x : Instance n u). x.running) next ∙ r')
        (ap (λ (x : Instance n u). x.alive) next ∙ (l' ∙ l)) (omega (arith, e))

  drained-IsStopped :
      (i : Instance n u) → IsConsistent n u i → i.running ≡ false → i.jobs ≡ [] → IsStopped n u i
  drained-IsStopped i v r q = elim (v.stopped r) [
    | inl s ↦ absurd (ground (arith, q, s))
    | inr (s, later) ↦ s
  ]

module _ (c : Crypto) (a : Asio) (n : Net) (u : Stack) where
  -- Whatever events an instance runs through from its construction, failed starts of the listeners
  -- and the end of its thread included: while the manager runs and no posted call is waiting, its
  -- listeners are started exactly if the last handler that the OpenVPN client called was the one
  -- for a tunnel that is ready, and not if none was called.
  pub started_follows :
      (config : InstanceConfig) (key : Bytes) (s : n.State) (s' : u.State) (i : Instance n u)
      → Reached c a n u (new_instance n u config key s s') i
      → i.running ≡ true
      → i.jobs ≡ []
      → i.ss.started ≡ last_ready false i.vpn.notified
  started_follows config key s s' i run r q =
      let v = Reached-IsConsistent c a n u config key s s' i run in ground (arith, v.follows r, q)

  -- Whatever events an instance runs through from its construction, once the manager's stop was
  -- called and as long as its thread is alive: when the thread has taken as many calls as were
  -- waiting, whatever the system answers in them, none is left, the listeners are not started, with
  -- the acceptor closed and no UDP session, the OpenVPN client and the LwipRuntime do not run, and
  -- the client has no handlers.
  pub run_all-IsStopped :
      (config : InstanceConfig) (key : Bytes) (s : n.State) (s' : u.State) (i : Instance n u)
      (more : List Answers)
      → Reached c a n u (new_instance n u config key s s') i
      → i.running ≡ false
      → i.alive ≡ true
      → length more ≡ length i.jobs
      → IsStopped n u (run_all n u more i) × ((run_all n u more i).jobs ≡ [])
  run_all-IsStopped config key s s' i more run r l e =
      let v = Reached-IsConsistent c a n u config key s s' i run in
      let (v', r', q') = drains n u more i.jobs i refl v r l e in
      (drained-IsStopped n u (run_all n u more i) v' r' q', q')
