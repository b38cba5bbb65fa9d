-- ===== src/Runtime/State.antt =====
-- The members of LwipRuntime and DnsQuery, over TunConfig of include/ovpn2ss/InstanceConfig.h.
use ovpn2ss.Common.{ℕ, Bool, true, false, Option, Bytes, List, []}
use ovpn2ss.Common.Int.{ℤ, pos}
use ovpn2ss.Lwip.{Err}
use ovpn2ss.Runtime.Net.{Net}

pub record TunAddress : Type 0 where
  pub address : Bytes
  pub gateway : Bytes
  pub prefix_length : ℤ
  pub ipv6 : Bool
  pub net30 : Bool

pub record TunConfig : Type 0 where
  pub addresses : List TunAddress
  pub ipv4_dns : List Bytes
  pub ipv6_dns : List Bytes
  pub mtu : ℤ

abbrev pub no_config : TunConfig
no_config = record { addresses = []; ipv4_dns = []; ipv6_dns = []; mtu = pos 1500 }

-- A handler is known by a number. A query has a pcb, since async_resolve puts no other into the table.
pub record Query : Type 0 where
  pub id : ℕ
  pub qtype : ℕ
  pub pcb : ℕ
  pub handler : ℕ

module _ (n : Net) where
  -- A call that was posted to the io_context.
  pub record Call : Type 0 where
    pub handler : ℕ
    pub error : Err
    pub ip : Option n.Ip

  -- `has_token` is *lifetime_token_. The fields from `lwip` on are no members: the state of lwIP,
  -- the static counter of async_resolve, which other runtimes move too, the calls posted, the
  -- packets injected by post and those given to packet_output_, in order, the handlers that were
  -- given to async_resolve, and those that were destroyed without a call.
  pub record Runtime : Type 0 where
    pub active_config : TunConfig
    pub has_output : Bool
    pub dns_queries : List Query
    pub has_token : Bool
    pub running : Bool
    pub lwip : n.State
    pub next_id : ℕ
    pub posted : List Call
    pub emitted : List Bytes
    pub asked : List ℕ
    pub dropped : List ℕ

  -- The constructor, behind what it asks of lwIP.
  abbrev pub init : n.State → Runtime
  init lwip = record {
    active_config = no_config;
    has_output = false;
    dns_queries = [];
    has_token = true;
    running = false;
    lwip = lwip;
    next_id = 1;
    posted = [];
    emitted = [];
    asked = [];
    dropped = [];
  }
