-- ===== src/TcpRelay/Teardown.antt =====
-- How a TcpRelaySession ends: what close and the other ends leave behind.
use ovpn2ss.Common.{◌≡◌, true, false, none, arith, ◌⊎◌}
use ovpn2ss.Lwip.{Lwip}
use ovpn2ss.TcpRelay.State.{Relay}
use ovpn2ss.TcpRelay.Closing.{close, handle_client_eof, handle_remote_fin, on_err}

module _ (l : Lwip) where
  -- The session holds neither a pcb nor itself, and its socket is closed.
  pub record IsClosed (r : Relay l) : Type 0 where
    pub closing : r.closing ≡ true
    pub no_pcb : r.pcb ≡ none
    pub released : r.active_self ≡ false
    pub socket_closed : r.socket_open ≡ false

  -- A session that is closing is closed.
  pub record IsTidy (r : Relay l) : Type 0 where
    pub tidy :
        (r.closing ≡ false) ⊎ ((r.pcb ≡ none) × (r.active_self ≡ false) × (r.socket_open ≡ false))

  -- A session that is not closing yet is closed by one call of close: it holds neither a pcb nor
  -- itself, and its client socket is closed.
  pub close-IsClosed : (r : Relay l) → r.closing ≡ false → IsClosed (close l r)
  unfolding close
  close-IsClosed r h = ground arith

  pub close-close : (r : Relay l) → close l (close l r) ≡ close l r
  unfolding close
  close-close r = ground arith

  pub close-IsTidy : (r : Relay l) → IsTidy r → IsTidy (close l r)
  unfolding close
  close-IsTidy r v = ground (arith, v.tidy)

  -- When lwIP reports an error on a session that is tidy, the session is closed: it holds neither
  -- the pcb, which lwIP has freed, nor itself, and its client socket is closed.
  pub on_err-IsClosed : (r : Relay l) → IsTidy r → IsClosed (on_err l true r)
  unfolding on_err
  on_err-IsClosed r v = ground (arith, v.tidy)

  -- When the target ends its stream, a session that is tidy stays so: if it is closing, it holds
  -- neither a pcb nor itself.
  pub handle_remote_fin-IsTidy : (r : Relay l) → IsTidy r → IsTidy (handle_remote_fin l r)
  unfolding handle_remote_fin
  handle_remote_fin-IsTidy r v = ground (arith, v.tidy)

  -- When the client ends its stream, a session that is tidy stays so: if it is closing, it holds
  -- neither a pcb nor itself.
  pub handle_client_eof-IsTidy : (r : Relay l) → IsTidy r → IsTidy (handle_client_eof l r)
  unfolding handle_client_eof
  handle_client_eof-IsTidy r v = ground (arith, v.tidy)
