-- ===== src/Manager/Events.antt =====
-- What can happen to an instance of MultiInstanceManager, and the instances that are reached.
use ovpn2ss.Common.{◌≡◌, Bool, true, false}
use ovpn2ss.Aead.Crypto.{Crypto}
use ovpn2ss.Address.{Asio}
use ovpn2ss.Runtime.Net.{Net}
use ovpn2ss.UdpRelay.Stack.{Stack}
use ovpn2ss.UdpRelay
use ovpn2ss.OpenVpn
use ovpn2ss.Inbound
use ovpn2ss.Manager.Instance.{Answers, Instance, run_next, post_stop, on_vpn}

module _ (n : Net) (u : Stack) where
  -- The thread takes a call; the manager stops; the OpenVPN client has a callback; an accept or the
  -- UDP session completes; or a handler throws, which ends the thread.
  pub data Event : Type 0 where
    ran : Answers → Event
    stops died was_aborted : Event
    vpn_event : (e : OpenVpn.Events.Event n) → OpenVpn.Steady.is_callback n e ≡ true → Event
    accepted : Bool → Event
    udp_event : UdpRelay.Events.Event u → Event

module _ (c : Crypto) (a : Asio) (n : Net) (u : Stack) where
  unfoldable pub step : Event n u → Instance n u → Instance n u
  unfolding run_next post_stop on_vpn Inbound.Events.run_accept Inbound.Events.run_aborted
      Inbound.Events.on_udp_event
  step (ran answers) i = run_next n u answers i
  step stops i = post_stop n u i
  step died i = record i { alive = false }
  step (vpn_event e h) i = on_vpn n u e i
  step (accepted failed) i = record i { ss = Inbound.Events.run_accept u failed i.ss }
  step was_aborted i = record i { ss = Inbound.Events.run_aborted u i.ss }
  step (udp_event e) i = record i { ss = Inbound.Events.on_udp_event c a u e i.ss }

  -- `i` comes from `i0` by events.
  pub data Reached (i0 : Instance n u) : Instance n u → Type 0 where
    here : {i : Instance n u} → i ≡ i0 → Reached i0 i
    more : {i i' : Instance n u} (e : Event n u) → Reached i0 i → i' ≡ step e i → Reached i0 i'
