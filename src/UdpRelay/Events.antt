-- ===== src/UdpRelay/Events.antt =====
-- What can happen to a UdpRelaySession: each event is a call from outside or a completion.
use ovpn2ss.Common.{ℕ, Bool, true, false, Option, Bytes, ◌≡◌}
use ovpn2ss.Aead.Crypto.{Crypto}
use ovpn2ss.Address.{TargetAddress, Asio}
use ovpn2ss.Lwip.{Err}
use ovpn2ss.UdpRelay.Stack.{Stack}
use ovpn2ss.UdpRelay.State.{Mapping, Relay}
use ovpn2ss.UdpRelay.Mappings.{erase_mapping, stop}
use ovpn2ss.UdpRelay.Sending.{start, on_receive, on_resolved, on_udp_recv}

module _ (u : Stack) where
  pub data Event : Type 0 where
    started stopped : Event
    received : Option (Bytes × u.Endpoint) → Event
    resolved : Bool → Bytes → u.Endpoint → TargetAddress → Err → Option u.Ip → Event
    idle : Bytes → Event
    came_back : Option Bytes → Option (Mapping u) → Option Bytes → u.Ip → ℕ → Event

  -- Those that are neither a start nor a stop.
  abbrev pub is_completion : Event → Bool
  is_completion started = false
  is_completion stopped = false
  is_completion _ = true

module _ (c : Crypto) (a : Asio) (u : Stack) where
  unfoldable pub step : Event u → Relay u → Relay u
  unfolding start stop on_receive on_resolved erase_mapping on_udp_recv
  step started r = start u r
  step stopped r = stop u r
  step (received found) r = on_receive c u found r
  step (resolved token payload client target e ip) r =
      on_resolved u token payload client target e ip r
  step (idle key) r = erase_mapping u key r
  step (came_back draw m payload ip port) r = (on_udp_recv c a u draw m payload ip port r).0

  -- `r` comes from `r0` by events.
  pub data Reached (r0 : Relay u) : Relay u → Type 0 where
    here : {r : Relay u} → r ≡ r0 → Reached r0 r
    more : {r r' : Relay u} (e : Event u) → Reached r0 r → r' ≡ step e r → Reached r0 r'
