-- ===== src/Inbound/Serving.antt =====
-- What holds of the listeners whatever happens to them.
use ovpn2ss.Common.{
  ◌+◌, ◌≤◌, ◌≡◌, ◌≢◌, refl, ◌∙◌, sym, inl, inr, Bool, true, false, not, ◌&&◌, some, Bytes, arith,
  Bool-cases, Option-cases, is_some, ◌==◌,
}
use ovpn2ss.Aead.Crypto.{Crypto}
use ovpn2ss.Address.{Asio}
use ovpn2ss.Manager.Config.{ShadowsocksConfig}
use ovpn2ss.UdpRelay.Stack.{Stack}
use ovpn2ss.UdpRelay.State.{Relay}
use ovpn2ss.UdpRelay.Table.{IsSound}
use ovpn2ss.UdpRelay.Accounting.{init-IsSound, start-IsSound, step-IsSound}
use ovpn2ss.UdpRelay.Standing.{step-Stands}
use ovpn2ss.UdpRelay
use ovpn2ss.Inbound.Listeners.{
  Opening, listens, refused, unbound, Inbound, init, open_tcp_acceptor, on_accept, start_udp, start,
  stop,
}
use ovpn2ss.Inbound.Events.{
  Event, started, stopped, accepted, was_aborted, udp_event, run_accept, run_aborted, on_udp_event,
  step, Reached, here, more,
}

module _ (u : Stack) where
  -- A UDP session that the listeners keep.
  pub record IsRelaying (r : Inbound u) (s : Relay u) : Type 0 where
    pub runs : s.running ≡ true
    pub is_open : s.socket_open ≡ true
    pub sound : IsSound u s
    pub same_key : s.master_key ≡ r.master_key
    pub configured : r.config.udp_port ≢ 0
    pub belongs : r.started ≡ true

  pub record IsServing (r : Inbound u) : Type 0 where
    pub idle : r.started ≡ false → r.acceptor_open ≡ false
    pub opened : r.acceptor_open ≡ false → r.listening ≡ false
    pub waits : r.listening ≡ true → 1 ≤ r.accepts
    pub bounded : r.accepts + r.aborted ≤ r.loops
    pub relays : (s : Relay u) → r.udp ≡ some s → IsRelaying r s

  -- The UDP session is that of before, and so is all that it is held to.
  record IsKept (r r' : Inbound u) : Type 0 where
    pub udp : r'.udp ≡ r.udp
    pub master_key : r'.master_key ≡ r.master_key
    pub udp_port : r'.config.udp_port ≡ r.config.udp_port
    pub started : r.started ≡ true → r'.started ≡ true

  kept_relays :
      (r r' : Inbound u)
      → IsKept r r'
      → IsServing r
      → (s : Relay u) → r'.udp ≡ some s
      → IsRelaying r' s
  kept_relays r r' k v s h =
      let x = v.relays s (sym k.udp ∙ h) in
      record {
        runs = x.runs;
        is_open = x.is_open;
        sound = x.sound;
        same_key = x.same_key ∙ sym k.master_key;
        configured = λ z. x.configured (sym k.udp_port ∙ z);
        belongs = k.started x.belongs;
      }

  stop-IsServing : (r : Inbound u) → IsServing r → IsServing (stop u r)
  unfolding stop
  stop-IsServing r v = elim (Option-cases r.udp) [
    | inl e ↦
        rw (e, stop)
          (record {
            idle = λ h. refl;
            opened = λ h. refl;
            waits = λ h. ground arith;
            bounded = omega (arith, v.bounded);
            relays = λ s h. ground arith;
          })
    | inr (s, e) ↦
        rw (e, stop)
          (record {
            idle = λ h. refl;
            opened = λ h. refl;
            waits = λ h. ground arith;
            bounded = omega (arith, v.bounded);
            relays = λ s h. ground arith;
          })
  ]

  run_accept-IsServing :
      (failed : Bool) (r : Inbound u) → IsServing r → IsServing (run_accept u failed r)
  unfolding run_accept on_accept
  run_accept-IsServing failed r v = record {
    idle = ground (arith, v.idle);
    opened = ground (arith, v.opened);
    waits = ground (arith, v.waits, v.opened);
    bounded = ground (arith, v.bounded);
    relays =
        kept_relays r (run_accept u failed r)
          (record {
            udp = ground arith;
            master_key = ground arith;
            udp_port = ground arith;
            started = λ h. ground arith;
          })
          v;
  }

  run_aborted-IsServing : (r : Inbound u) → IsServing r → IsServing (run_aborted u r)
  unfolding run_aborted on_accept
  run_aborted-IsServing r v = record {
    idle = ground (arith, v.idle);
    opened = ground (arith, v.opened);
    waits = ground (arith, v.waits, v.opened);
    bounded = ground (arith, v.bounded);
    relays =
        kept_relays r (run_aborted u r)
          (record {
            udp = ground arith;
            master_key = ground arith;
            udp_port = ground arith;
            started = λ h. ground arith;
          })
          v;
  }

  only_one : (r : Inbound u) (s s' : Relay u) → IsRelaying r s → some s ≡ some s' → IsRelaying r s'
  only_one r s s' x h = let e : s' ≡ s = ground arith in rw e x

  start_udp-IsServing :
      (bound : Bool) (r : Inbound u)
      → r.started ≡ true
      → IsServing r
      → IsServing (start_udp u bound r).0
  unfolding start_udp UdpRelay.Sending.start UdpRelay.Sending.receive_loop
  start_udp-IsServing bound r t v =
      elim (Bool-cases (not (r.config.udp_port == 0) && not (is_some r.udp))) [
        | inl e ↦ elim (Bool-cases bound) [
          | inl f ↦
              rw (e, f, start_udp)
                (record {
                  idle = v.idle;
                  opened = v.opened;
                  waits = v.waits;
                  bounded = v.bounded;
                  relays = λ s. only_one _ _ s (record {
                    runs = ground arith;
                    is_open = ground arith;
                    sound = start-IsSound u _ (init-IsSound u r.master_key r.lwip);
                    same_key = ground arith;
                    configured = λ z. ground arith;
                    belongs = t;
                  });
                })
          | inr f ↦ rw (e, f, start_udp) v
        ]
        | inr e ↦ elim (Option-cases r.udp) [
          | inl f ↦ rw (e, f, start_udp) v
          | inr (s, f) ↦
              rw (e, f, start_udp)
                (record {
                  idle = v.idle;
                  opened = v.opened;
                  waits = v.waits;
                  bounded = v.bounded;
                  relays =
                      let x = v.relays s f in
                      λ s'. only_one _ _ s' (record {
                        runs = ground arith;
                        is_open = ground (arith, x.is_open);
                        sound = start-IsSound u s x.sound;
                        same_key = ground (arith, x.same_key);
                        configured = x.configured;
                        belongs = t;
                      });
                })
        ]
      ]

  -- start that fails in open_tcp_acceptor, with the acceptor closed or open.
  failed-IsServing :
      (is_open : Bool) (r : Inbound u)
      → r.started ≡ false
      → IsServing r
      → IsServing (record r { started = true; acceptor_open = is_open })
  failed-IsServing is_open r t v = record {
    idle = λ h. ground arith;
    opened = λ h. v.opened (v.idle t);
    waits = v.waits;
    bounded = v.bounded;
    relays =
        kept_relays r (record r { started = true; acceptor_open = is_open })
          (record { udp = refl; master_key = refl; udp_port = refl; started = λ h. refl }) v;
  }

  listening-IsServing :
      (r : Inbound u)
      → r.started ≡ false
      → IsServing r
      → IsServing (record r {
        started = true;
        acceptor_open = true;
        listening = true;
        loops = r.loops + 1;
        accepts = r.accepts + 1;
      })
  listening-IsServing r t v = record {
    idle = λ h. ground arith;
    opened = λ h. ground arith;
    waits = λ h. omega arith;
    bounded = omega (arith, v.bounded);
    relays =
        kept_relays r _
          (record { udp = refl; master_key = refl; udp_port = refl; started = λ h. refl }) v;
  }

  start_again :
      (opening : Opening) (bound : Bool) (r : Inbound u)
      → r.started ≡ true
      → (start u opening bound r).0 ≡ r
  unfolding start
  start_again opening bound r t = ground arith

  pub start_first :
      (bound : Bool) (r : Inbound u)
      → r.started ≡ false
      → r.acceptor_open ≡ false
      → start u listens bound r
        ≡ start_udp u bound (record r {
          started = true;
          acceptor_open = true;
          listening = true;
          loops = r.loops + 1;
          accepts = r.accepts + 1;
        })
  unfolding start open_tcp_acceptor
  start_first bound r t h = ground arith

  start_refused :
      (bound : Bool) (r : Inbound u)
      → r.started ≡ false
      → r.acceptor_open ≡ false
      → (start u refused bound r).0 ≡ record r { started = true; acceptor_open = false }
  unfolding start open_tcp_acceptor
  start_refused bound r t h = ground arith

  start_unbound :
      (bound : Bool) (r : Inbound u)
      → r.started ≡ false
      → r.acceptor_open ≡ false
      → (start u unbound bound r).0 ≡ record r { started = true; acceptor_open = true }
  unfolding start open_tcp_acceptor
  start_unbound bound r t h = ground arith

  started_anew :
      (opening : Opening) (bound : Bool) (r : Inbound u)
      → r.started ≡ false
      → IsServing r
      → IsServing (start u opening bound r).0
  started_anew listens bound r t v =
      rw (start_first bound r t (v.idle t))
        (start_udp-IsServing bound _ refl (listening-IsServing r t v))
  started_anew refused bound r t v =
      rw (start_refused bound r t (v.idle t)) (failed-IsServing false r t v)
  started_anew unbound bound r t v =
      rw (start_unbound bound r t (v.idle t)) (failed-IsServing true r t v)

  start-IsServing :
      (opening : Opening) (bound : Bool) (r : Inbound u)
      → IsServing r
      → IsServing (start u opening bound r).0
  start-IsServing opening bound r v = elim (Bool-cases r.started) [
    | inl t ↦ rw (start_again opening bound r t) v
    | inr t ↦ started_anew opening bound r t v
  ]

module _ (c : Crypto) (a : Asio) (u : Stack) where
  on_udp_event-IsServing :
      (e : UdpRelay.Events.Event u) (r : Inbound u)
      → IsServing u r
      → IsServing u (on_udp_event c a u e r)
  unfolding on_udp_event
  on_udp_event-IsServing e r v = elim (Option-cases r.udp) [
    | inl f ↦ rw (f, on_udp_event) v
    | inr (s, f) ↦ elim (Bool-cases (UdpRelay.Events.is_completion u e)) [
      | inr g ↦ rw (f, g, on_udp_event) v
      | inl g ↦
          rw (f, g, on_udp_event)
            (record {
              idle = v.idle;
              opened = v.opened;
              waits = v.waits;
              bounded = v.bounded;
              relays =
                  let x = v.relays s f in
                  let k = step-Stands c a u e s g in
                  λ s'. only_one u _ _ s' (record {
                    runs = k.running ∙ x.runs;
                    is_open = k.socket_open ∙ x.is_open;
                    sound = step-IsSound c a u e s x.sound;
                    same_key = k.master_key ∙ x.same_key;
                    configured = x.configured;
                    belongs = x.belongs;
                  });
            })
    ]
  ]

  step-IsServing : (e : Event u) (r : Inbound u) → IsServing u r → IsServing u (step c a u e r)
  unfolding step
  step-IsServing (started opening bound) r v = start-IsServing u opening bound r v
  step-IsServing stopped r v = stop-IsServing u r v
  step-IsServing (accepted failed) r v = run_accept-IsServing u failed r v
  step-IsServing was_aborted r v = run_aborted-IsServing u r v
  step-IsServing (udp_event e) r v = on_udp_event-IsServing e r v

  -- Whatever starts, stops, accepts and completions a ShadowsocksInbound runs through from its
  -- construction: while it listens, an accept is in flight; the accepts in flight, those of a
  -- closed acceptor included, are at most as many as the starts that came to accept_loop; when it
  -- is not started, its acceptor is closed; and a UDP session that it keeps runs, has its socket
  -- open and the same key, is there only with a UDP port and while it is started, has a mapping for
  -- each pcb that was made and not removed, and no two mappings of one key.
  pub Reached-IsServing :
      (config : ShadowsocksConfig) (master_key : Bytes) (s : u.State) (r : Inbound u)
      → Reached c a u (init u config master_key s) r
      → IsServing u r
  Reached-IsServing config key s r (here e) = rw e (record {
    idle = λ h. refl;
    opened = λ h. refl;
    waits = λ h. ground arith;
    bounded = omega arith;
    relays = λ s h. ground arith;
  })
  Reached-IsServing config key s r (more {r = before} e run is) =
      rw is (step-IsServing e before (Reached-IsServing config key s before run))
