-- ===== src/TcpRelay/Closing.antt =====
-- The ways in which a TcpRelaySession lets go of its pcb and of its client socket.
use ovpn2ss.Common.{ℕ, Bool, true, false, ◌||◌, none, some, if◌then◌else◌, is_some, not}
use ovpn2ss.Lwip.{Lwip, Err, err_ok, TcpState, syn_rcvd, established, close_wait, other_state}
use ovpn2ss.TcpRelay.State.{Relay}

abbrev pub is_ok : Err → Bool
is_ok err_ok = true
is_ok _ = false

module _ (l : Lwip) where
  -- detach_pcb_callbacks.
  unfoldable pub detach_pcb_callbacks : Relay l → Relay l
  detach_pcb_callbacks r = elim r.pcb [
    | none ↦ r
    | some p ↦ record r { lwip = l.clear_callbacks r.lwip p }
  ]

  -- release_active_self.
  abbrev pub release_active_self : Relay l → Relay l
  release_active_self r = record r { active_self = false }

  -- tcp_abort(pcb_), pcb_ = nullptr.
  abbrev pub abort_pcb : ℕ → Relay l → Relay l
  abort_pcb p r = record r { lwip = l.tcp_abort r.lwip p; pcb = none }

  -- tcp_close(pcb_), with tcp_abort(pcb_) if that fails, pcb_ = nullptr.
  unfoldable pub close_pcb : ℕ → Relay l → Relay l
  close_pcb p r =
      let (e, lwip) = l.tcp_close r.lwip p in
      record r { lwip = if is_ok e then lwip else l.tcp_abort lwip p; pcb = none }

  -- `if (pcb_ != nullptr)` with the calls above.
  unfoldable pub drop_pcb : Relay l → Relay l
  unfolding detach_pcb_callbacks close_pcb
  drop_pcb r = elim r.pcb [ none ↦ r | some p ↦ close_pcb p (detach_pcb_callbacks r) ]

  unfoldable pub close : Relay l → Relay l
  unfolding drop_pcb
  close r =
      if r.closing
      then r
      else release_active_self (drop_pcb (record r { closing = true; socket_open = false }))

  unfoldable pub close_client_only : Relay l → Relay l
  close_client_only r =
      release_active_self
        (if r.closing then r else record r { closing = true; socket_open = false })

  -- The destructor, as far as it calls lwIP.
  unfoldable pub destroy : Relay l → Relay l
  unfolding detach_pcb_callbacks
  destroy r = elim r.pcb [ none ↦ r | some p ↦ abort_pcb p (detach_pcb_callbacks r) ]

  -- What handle_client_eof does to a pcb in a state in which it cannot be shut down.
  unfoldable pub abort_upstream : ℕ → Relay l → Relay l
  unfolding detach_pcb_callbacks
  abort_upstream p r = release_active_self (abort_pcb p (detach_pcb_callbacks r))

  unfoldable pub shut_upstream : ℕ → Relay l → Relay l
  unfolding abort_upstream
  shut_upstream p r =
      let (e, lwip) = l.tcp_shutdown_tx r.lwip p in
      let r1 = record r { lwip = lwip } in if is_ok e then r1 else abort_upstream p r1

  -- The switch on the state of the pcb.
  abbrev can_shut : TcpState → Bool
  can_shut syn_rcvd = true
  can_shut established = true
  can_shut close_wait = true
  can_shut other_state = false

  unfoldable pub end_upstream : Relay l → Relay l
  unfolding shut_upstream abort_upstream
  end_upstream r = elim r.pcb [
    | none ↦ r
    | some p ↦ if can_shut (l.tcp_state r.lwip p) then shut_upstream p r else abort_upstream p r
  ]

  unfoldable pub handle_client_eof : Relay l → Relay l
  unfolding end_upstream close
  handle_client_eof r =
      let r1 = end_upstream (record r { client_eof = true }) in
      if r1.remote_eof || not (is_some r1.pcb) then close r1 else r1

  unfoldable pub handle_remote_fin : Relay l → Relay l
  unfolding detach_pcb_callbacks close_pcb close
  handle_remote_fin r =
      let r1 = record r { remote_eof = true; send_shut = true } in
      let r2 : Relay l = elim r1.pcb [
        | none ↦ r1
        | some p ↦ release_active_self (close_pcb p (detach_pcb_callbacks r1))
      ] in
      if r2.client_eof then close r2 else r2

  -- on_err: lwIP has freed the pcb already. `attached` is arg != nullptr.
  unfoldable pub on_err : Bool → Relay l → Relay l
  unfolding close_client_only
  on_err attached r = if attached then close_client_only (record r { pcb = none }) else r
