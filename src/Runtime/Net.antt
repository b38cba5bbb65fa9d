-- ===== src/Runtime/Net.antt =====
-- The calls of lwIP that LwipRuntime makes, as a parameter.
use ovpn2ss.Common.{ℕ, Bool, Option, Bytes}
use ovpn2ss.Common.Outcome.{Result}
use ovpn2ss.Lwip.{Err}
use ovpn2ss.Dns.Response.{IpAddr}

-- A pcb is known by a number. A call takes the state of lwIP and gives its answer and the next state.
pub record Net : Type 1 where
  pub State : Type 0
  pub Ip : Type 0
  pub ipaddr_aton : Bytes → Option Ip
  pub is_v6 : Ip → Bool
  -- The address that IP_ADDR4 or IP_ADDR6 has filled.
  pub of_answer : IpAddr → Ip
  pub netif_set_mtu : State → ℕ → State
  -- netif_ip6_addr_set with netif_ip6_addr_set_state.
  pub netif_ip6_addr_set : State → Ip → State
  -- netif_set_addr with the address, the bytes of the mask and the gateway, which may be 0.0.0.0.
  pub netif_set_addr : State → Ip → Bytes → Option Ip → State
  -- sys_check_timeouts: the callbacks that it runs may throw.
  pub sys_check_timeouts : State → Result (Unit {0}) × State
  -- Whether there is room for a pbuf of that size.
  pub pbuf_alloc : State → ℕ → Bool × State
  -- netif_.input.
  pub input : State → Bytes → Err × State
  -- udp_new_ip_type with udp_bind_netif; `none` is a null pointer.
  pub udp_new : State → Option ℕ × State
  pub udp_recv : State → ℕ → State
  -- udp_recv with null pointers, then udp_remove.
  pub udp_remove : State → ℕ → State
  -- pbuf_take, udp_sendto to port 53 and pbuf_free.
  pub udp_sendto : State → ℕ → Bytes → Ip → Err × State
