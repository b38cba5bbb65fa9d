-- ===== src/Inbound/Restart.antt =====
-- Connections that arrive, starts that fail, and a stop with a start behind it.
use ovpn2ss.Common.{
  ℕ, count, zero, suc, ◌+◌, ◌≤◌, ◌≡◌, ◌≢◌, ◌∙◌, Bool, true, false, some, none, Bytes, arith,
  if◌then◌else◌, ap, ◌⊎◌,
}
use ovpn2ss.Common.Outcome.{ok, err, system_error}
use ovpn2ss.Aead.Crypto.{Crypto}
use ovpn2ss.Address.{Asio}
use ovpn2ss.Manager.Config.{ShadowsocksConfig}
use ovpn2ss.UdpRelay.Stack.{Stack}
use ovpn2ss.UdpRelay.State.{Relay}
use ovpn2ss.UdpRelay.Accounting.{stopped_releases}
use ovpn2ss.UdpRelay
use ovpn2ss.Inbound.Listeners.{
  Opening, listens, refused, unbound, Inbound, init, open_tcp_acceptor, on_accept, start_udp, start,
  stop,
}
use ovpn2ss.Inbound.Events.{run_accept, run_aborted, Reached}
use ovpn2ss.Inbound.Serving.{start_first, Reached-IsServing}

module _ (u : Stack) where
  -- `n` connections arrive, one behind the other.
  abbrev pub connections : ℕ → Inbound u → Inbound u
  connections zero r = r
  connections (suc n) r = connections n (run_accept u false r)

  -- An acceptor that is open with an accept in flight.
  run_accept_open :
      (failed : Bool) (r : Inbound u)
      → r.acceptor_open ≡ true
      → 1 ≤ r.accepts
      → run_accept u failed r ≡ (if failed then r else record r { sessions = r.sessions + 1 })
  unfolding run_accept on_accept
  run_accept_open failed r o h = ground arith

  connections_open :
      (n : ℕ) (r : Inbound u)
      → r.acceptor_open ≡ true
      → 1 ≤ r.accepts
      → connections n r ≡ record r { sessions = r.sessions + n }
  connections_open zero r o h = ap (λ k. record r { sessions = k }) (omega arith)
  connections_open (suc n) r o h = rw (run_accept_open false r o h) (
      connections_open n (record r { sessions = r.sessions + 1 }) o h
      ∙ ap (λ k. record r { sessions = k }) (omega arith))

  stop_closes :
      (r : Inbound u)
      → ((stop u r).started ≡ false)
        × ((stop u r).acceptor_open ≡ false)
        × ((stop u r).udp ≡ none)
        × ((stop u r).accepts ≡ 0)
        × ((stop u r).aborted ≡ r.aborted + r.accepts)
        × ((stop u r).config ≡ r.config)
        × ((stop u r).master_key ≡ r.master_key)
  unfolding stop
  stop_closes r = ground arith

  -- An accept of before the stop, whose handler runs behind the new start, makes a second loop.
  two_accept_loops :
      (r : Inbound u)
      → 1 ≤ r.accepts
      → (run_aborted u (start u listens true (stop u r)).0).accepts ≡ 2
  unfolding run_aborted on_accept start open_tcp_acceptor start_udp
  two_accept_loops r h = let x = stop_closes r in ground (arith, x)

  start_fails :
      (opening : Opening) (bound : Bool) (r : Inbound u)
      → (opening ≡ refused) ⊎ (opening ≡ unbound)
      → r.started ≡ false
      → r.acceptor_open ≡ false
      → ((start u opening bound r).1 ≡ err system_error)
        × ((start u opening bound r).0.started ≡ true)
        × ((start u opening bound r).0.listening ≡ r.listening)
  unfolding start open_tcp_acceptor
  start_fails listens bound r x t h = absurd (ground arith)
  start_fails refused bound r x t h = ground arith
  start_fails unbound bound r x t h = ground arith

  start_again :
      (opening : Opening) (bound : Bool) (r : Inbound u)
      → r.started ≡ true
      → start u opening bound r ≡ (r, ok tt)
  unfolding start
  start_again opening bound r t = ground arith

  stop_hands_back :
      (r : Inbound u) (q : Relay u)
      → r.udp ≡ some q
      → (stop u r).lwip ≡ (UdpRelay.Mappings.stop u q).lwip
  unfolding stop
  stop_hands_back r q e = ground arith

  -- start behind a stop, with all ports free.
  start-stop_lem :
      (r : Inbound u)
      → let (r1, answer) = start u listens true (stop u r) in
        (answer ≡ ok tt)
        × (r1.listening ≡ true)
        × (r1.accepts ≡ 1)
        × (r.config.udp_port ≡ 0 → r1.udp ≡ none)
        × (r.config.udp_port ≢ 0
            → r1.udp
              ≡ some
                  (UdpRelay.Sending.start u (UdpRelay.State.init u r.master_key (stop u r).lwip)))
  unfolding start_udp
  start-stop_lem r =
      let (idle, closed, no_udp, no_accepts, aborted, same, key) = stop_closes r in
      rw (start_first u true (stop u r) idle closed) (
        ground (arith, no_udp),
        ground (arith, no_udp),
        ground (arith, no_udp, no_accepts),
        λ h. ground (arith, no_udp, same),
        λ h. ground (arith, no_udp, same, key),
      )

module _ (c : Crypto) (a : Asio) (u : Stack) where
  -- On a ShadowsocksInbound that is reached from its construction and listens, any number of
  -- connections that arrive behind each other become just so many sessions and change nothing else;
  -- an accept that fails leaves all as it was, with the next accept in flight.
  pub connections_served :
      (config : ShadowsocksConfig) (master_key : Bytes) (s : u.State) (r : Inbound u) (n : ℕ)
      → Reached c a u (init u config master_key s) r
      → r.listening ≡ true
      → (connections u n r ≡ record r { sessions = r.sessions + n }) × (run_accept u true r ≡ r)
  connections_served config key s r n run l =
      let v = Reached-IsServing c a u config key s r run in
      let o : r.acceptor_open ≡ true = ground (arith, v.opened) in
      (connections_open u n r o (v.waits l), run_accept_open u true r o (v.waits l))

  -- On a ShadowsocksInbound that is reached from its construction and is not started, a start in
  -- which open_tcp_acceptor throws gives that error and does not listen; and every later start then
  -- changes nothing and returns without an error, whether the port is free by then or not.
  pub failed_start_sticks :
      (config : ShadowsocksConfig) (master_key : Bytes) (s : u.State) (r : Inbound u)
      (opening : Opening) (bound : Bool)
      → Reached c a u (init u config master_key s) r
      → r.started ≡ false
      → (opening ≡ refused) ⊎ (opening ≡ unbound)
      → let (r1, answer) = start u opening bound r in
        (answer ≡ err system_error)
        × (r1.listening ≡ false)
        × ((later : Opening) (bound' : Bool) → start u later bound' r1 ≡ (r1, ok tt))
  failed_start_sticks config key s r opening bound run t x =
      let v = Reached-IsServing c a u config key s r run in
      let closed = v.idle t in
      let (e, st, l) = start_fails u opening bound r x t closed in
      (e, l ∙ v.opened closed, λ later bound'. start_again u later bound' _ st)

  -- A ShadowsocksInbound that is reached from its construction is stopped and started again, with
  -- its ports free. It then listens with one accept in flight on the new acceptor; it has no UDP
  -- session if it has no UDP port, and otherwise a new one with its key, which was started; and the
  -- UDP session that it had has removed every pcb that it made, as often as it made it, and what it
  -- left of lwIP is what goes on.
  pub start-stop :
      (config : ShadowsocksConfig) (master_key : Bytes) (s : u.State) (r : Inbound u)
      → Reached c a u (init u config master_key s) r
      → let (r1, answer) = start u listens true (stop u r) in
        (answer ≡ ok tt)
        × (r1.listening ≡ true)
        × (r1.accepts ≡ 1)
        × (r.config.udp_port ≡ 0 → r1.udp ≡ none)
        × (r.config.udp_port ≢ 0
            → r1.udp
              ≡ some
                  (UdpRelay.Sending.start u (UdpRelay.State.init u r.master_key (stop u r).lwip)))
        × ((q : Relay u)
            → r.udp ≡ some q
            → ((stop u r).lwip ≡ (UdpRelay.Mappings.stop u q).lwip)
              × ((p : ℕ)
                  → count p (UdpRelay.Mappings.stop u q).made
                    ≡ count p (UdpRelay.Mappings.stop u q).removed))
  start-stop config key s r run =
      let v = Reached-IsServing c a u config key s r run in
      let (answer, listening, accepts, off, on) = start-stop_lem u r in
      (
        answer,
        listening,
        accepts,
        off,
        on,
        λ q e. (stop_hands_back u r q e, stopped_releases u q (v.relays q e).sound),
      )
