-- ===== src/Inbound/Listeners.antt =====
-- The members of ShadowsocksInbound, and its methods.
use ovpn2ss.Common.{
  ℕ, ◌+◌, Bool, true, false, not, ◌&&◌, Option, none, some, Bytes, ◌==◌, if◌then◌else◌, is_some,
}
use ovpn2ss.Common.Outcome.{Result, ok, err, system_error}
use ovpn2ss.Manager.Config.{ShadowsocksConfig}
use ovpn2ss.UdpRelay.Stack.{Stack}
use ovpn2ss.UdpRelay.State.{Relay}
use ovpn2ss.UdpRelay

-- How the calls of open_tcp_acceptor end: all succeed, make_address or open throws, or a call behind
-- open throws, which leaves the acceptor open.
pub data Opening : Type 0 where
  listens refused unbound : Opening

module _ (u : Stack) where
  -- `master_key` is that of crypto_, and `udp` is none for a null pointer. The last six fields are no
  -- members: whether the acceptor listens, the accepts in flight on it, those whose acceptor was
  -- closed and whose handler has not run, the sessions that were made and started, how often start
  -- came to accept_loop, and the state of lwIP while there is no UDP session.
  pub record Inbound : Type 0 where
    pub config : ShadowsocksConfig
    pub master_key : Bytes
    pub acceptor_open : Bool
    pub udp : Option (Relay u)
    pub started : Bool
    pub listening : Bool
    pub accepts : ℕ
    pub aborted : ℕ
    pub sessions : ℕ
    pub loops : ℕ
    pub lwip : u.State

  -- The constructor.
  abbrev pub init : ShadowsocksConfig → Bytes → u.State → Inbound
  init config master_key lwip = record {
    config = config;
    master_key = master_key;
    acceptor_open = false;
    udp = none;
    started = false;
    listening = false;
    accepts = 0;
    aborted = 0;
    sessions = 0;
    loops = 0;
    lwip = lwip;
  }

  unfoldable pub open_tcp_acceptor : Opening → Inbound → Inbound × Result (Unit {0})
  open_tcp_acceptor listens r =
      if r.acceptor_open
      then (r, ok tt)
      else (record r { acceptor_open = true; listening = true }, ok tt)
  open_tcp_acceptor refused r = if r.acceptor_open then (r, ok tt) else (r, err system_error)
  open_tcp_acceptor unbound r =
      if r.acceptor_open then (r, ok tt) else (record r { acceptor_open = true }, err system_error)

  -- accept_loop, up to the start of the accept.
  abbrev pub accept_loop : Inbound → Inbound
  accept_loop r = record r { accepts = r.accepts + 1 }

  -- The handler of accept_loop; `failed` is its error code.
  unfoldable pub on_accept : Bool → Inbound → Inbound
  on_accept failed r =
      let r1 = if failed then r else record r { sessions = r.sessions + 1 } in
      if r1.acceptor_open then accept_loop r1 else r1

  -- The part of start behind accept_loop; `bound` is whether the socket of the UDP session can be
  -- opened and bound, and otherwise its constructor throws.
  unfoldable pub start_udp : Bool → Inbound → Inbound × Result (Unit {0})
  start_udp bound r =
      let fresh = UdpRelay.State.init u r.master_key r.lwip in
      if not (r.config.udp_port == 0) && not (is_some r.udp)
      then (if bound
          then (record r { udp = some (UdpRelay.Sending.start u fresh) }, ok tt)
          else (r, err system_error))
      else elim r.udp [
        | none ↦ (r, ok tt)
        | some s ↦ (record r { udp = some (UdpRelay.Sending.start u s) }, ok tt)
      ]

  unfoldable pub start : Opening → Bool → Inbound → Inbound × Result (Unit {0})
  unfolding open_tcp_acceptor start_udp
  start opening bound r =
      let (r1, answer) = open_tcp_acceptor opening (record r { started = true }) in
      if r.started then (r, ok tt) else elim answer [
        | err e ↦ (r1, err e)
        | ok done ↦ start_udp bound (accept_loop (record r1 { loops = r1.loops + 1 }))
      ]

  -- Closing the acceptor aborts what is in flight on it.
  abbrev pub close_acceptor : Inbound → Inbound
  close_acceptor r = record r {
    acceptor_open = false;
    listening = false;
    accepts = 0;
    aborted = r.aborted + r.accepts;
  }

  unfoldable pub stop : Inbound → Inbound
  stop r =
      let r1 = close_acceptor (record r { started = false }) in
      elim r1.udp [
        | none ↦ r1
        | some s ↦ record r1 { udp = none; lwip = (UdpRelay.Mappings.stop u s).lwip }
      ]
