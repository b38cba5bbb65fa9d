-- ===== src/UdpRelay/Stack.antt =====
-- The calls of lwIP and Asio that src/UdpRelaySession.cpp makes, and the two of LwipRuntime that stand
-- before lwIP there, as a parameter.
use ovpn2ss.Common.{ℕ, Bool, Option, Bytes}
use ovpn2ss.Common.Outcome.{Result}

-- A pcb is known by a number. A call takes the state of lwIP and gives its answer and the next state.
pub record Stack : Type 1 where
  pub State : Type 0
  pub Ip : Type 0
  -- asio::ip::udp::endpoint with address().to_string() and port().
  pub Endpoint : Type 0
  pub address_text : Endpoint → Bytes
  pub port : Endpoint → ℕ
  pub ipaddr_aton : Bytes → Option Ip
  pub ipaddr_ntoa : Ip → Bytes
  pub is_v6 : Ip → Bool
  -- LwipRuntime::udp_new_pcb; `none` is a null pointer.
  pub udp_new_pcb : State → Option ℕ × State
  -- LwipRuntime::async_resolve: it throws, or its handler is called later.
  pub async_resolve : State → Bytes → Result (Unit {0}) × State
  pub udp_recv : State → ℕ → State
  pub udp_remove : State → ℕ → State
  -- Whether there is room for a pbuf of that size.
  pub pbuf_alloc : State → ℕ → Bool × State
  -- pbuf_take, udp_sendto with the pcb, the bytes, the address and the port, and pbuf_free.
  pub udp_sendto : State → ℕ → Bytes → Ip → ℕ → State
