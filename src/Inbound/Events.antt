-- ===== src/Inbound/Events.antt =====
-- What can happen to a ShadowsocksInbound: calls of start and stop, the handlers of its accepts, and
-- the completions of its UDP session.
use ovpn2ss.Common.{◌-◌, ◌≡◌, Bool, true, some, none, ltb, if◌then◌else◌}
use ovpn2ss.Aead.Crypto.{Crypto}
use ovpn2ss.Address.{Asio}
use ovpn2ss.UdpRelay.Stack.{Stack}
use ovpn2ss.UdpRelay
use ovpn2ss.Inbound.Listeners.{Opening, Inbound, start, stop, on_accept}

module _ (u : Stack) where
  -- `udp_event` is a completion of the UDP session: only the listeners start and stop it.
  pub data Event : Type 0 where
    started : Opening → Bool → Event
    stopped : Event
    accepted : Bool → Event
    was_aborted : Event
    udp_event : UdpRelay.Events.Event u → Event

  -- The handler of an accept runs only if one is in flight.
  unfoldable pub run_accept : Bool → Inbound u → Inbound u
  unfolding on_accept
  run_accept failed r =
      if ltb 0 r.accepts then on_accept u failed (record r { accepts = r.accepts - 1 }) else r

  unfoldable pub run_aborted : Inbound u → Inbound u
  unfolding on_accept
  run_aborted r =
      if ltb 0 r.aborted then on_accept u true (record r { aborted = r.aborted - 1 }) else r

module _ (c : Crypto) (a : Asio) (u : Stack) where
  unfoldable pub on_udp_event : UdpRelay.Events.Event u → Inbound u → Inbound u
  on_udp_event e r = elim r.udp [
    | none ↦ r
    | some s ↦
        if UdpRelay.Events.is_completion u e
        then record r { udp = some (UdpRelay.Events.step c a u e s) }
        else r
  ]

  unfoldable pub step : Event u → Inbound u → Inbound u
  unfolding start stop run_accept run_aborted on_udp_event
  step (started opening bound) r = (start u opening bound r).0
  step stopped r = stop u r
  step (accepted failed) r = run_accept u failed r
  step was_aborted r = run_aborted u r
  step (udp_event e) r = on_udp_event e r

  -- `r` comes from `r0` by events.
  pub data Reached (r0 : Inbound u) : Inbound u → Type 0 where
    here : {r : Inbound u} → r ≡ r0 → Reached r0 r
    more : {r r' : Inbound u} (e : Event u) → Reached r0 r → r' ≡ step e r → Reached r0 r'
