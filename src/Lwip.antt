-- ===== src/Lwip.antt =====
-- The calls of lwIP that src/TcpRelaySession.cpp makes, and the two of LwipRuntime that stand before
-- lwIP there. lwIP is another project's library: its state and its answers are a parameter.
use ovpn2ss.Common.{ℕ, Option, Bytes}
use ovpn2ss.Common.Outcome.{Result}

-- err_t. Codes that the program does not name are `err_other`.
pub data Err : Type 0 where
  err_ok err_mem err_buf err_timeout err_rte err_val : Err
  err_other : ℕ → Err

-- tcp_state, as far as handle_client_eof tells the states apart.
pub data TcpState : Type 0 where
  syn_rcvd established close_wait other_state : TcpState

-- A pcb is known by a number. A call takes the state of lwIP and gives its answer and the next state.
pub record Lwip : Type 1 where
  pub State : Type 0
  pub Ip : Type 0
  pub ipaddr_aton : Bytes → Option Ip
  -- LwipRuntime::tcp_new_pcb; `none` is a null pointer.
  pub tcp_new_pcb : State → Option ℕ × State
  -- LwipRuntime::async_resolve: it throws, or its handler is called later.
  pub async_resolve : State → Bytes → Result (Unit {0}) × State
  -- tcp_arg, tcp_recv, tcp_sent and tcp_err with the session and its callbacks, or with null.
  pub set_callbacks : State → ℕ → State
  pub clear_callbacks : State → ℕ → State
  pub tcp_connect : State → ℕ → Ip → ℕ → Err × State
  pub tcp_sndbuf : State → ℕ → ℕ
  pub tcp_sndqueuelen : State → ℕ → ℕ
  pub tcp_state : State → ℕ → TcpState
  pub tcp_write : State → ℕ → Bytes → Err × State
  pub tcp_output : State → ℕ → State
  pub tcp_recved : State → ℕ → ℕ → State
  pub tcp_shutdown_tx : State → ℕ → Err × State
  pub tcp_close : State → ℕ → Err × State
  pub tcp_abort : State → ℕ → State
