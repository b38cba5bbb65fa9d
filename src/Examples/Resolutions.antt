-- ===== src/Examples/Resolutions.antt =====
-- A LwipRuntime of src/LwipRuntime.cpp that resolves names.
use ovpn2ss.Common.{◌≡◌, refl, none, some, true, [], ◌∷◌, ◌++◌, codes}
use ovpn2ss.Common.Int.{pos}
use ovpn2ss.Common.Outcome.{ok, err, bad_dns_label}
use ovpn2ss.Dns.Query.{make_dns_query}
use ovpn2ss.Runtime.State.{TunConfig, Runtime, init}
use ovpn2ss.Runtime.Config.{prefix_to_netmask, dns_server}
use ovpn2ss.Runtime.Resolver.{query_packet, async_resolve, find}
use ovpn2ss.Runtime.Handlers.{IsAccounted}
use ovpn2ss.Runtime.Events.{
  configured, resolves, timed_out, step, Reached, here, more, Reached-IsAccounted,
  async_resolve_leaks,
}
use ovpn2ss.Examples.Toy.{toy_net}

abbrev tunnel : TunConfig
tunnel = record { addresses = []; ipv4_dns = codes "10.8.0.1" ∷ []; ipv6_dns = []; mtu = pos 1400 }

abbrev fresh : Runtime toy_net
fresh = init toy_net 5

abbrev ready : Runtime toy_net
ready = step toy_net (configured tunnel) fresh

-- A name is asked for, and there is no answer in time.
abbrev timed : Runtime toy_net
timed = step toy_net (timed_out true 1) (step toy_net (resolves 70 (codes "a.bc")) ready)

timed-Reached : Reached toy_net fresh timed
timed-Reached =
    more {r = step toy_net (resolves 70 (codes "a.bc")) ready} (timed_out true 1)
      (more {r = ready} (resolves 70 (codes "a.bc"))
        (more {r = fresh} (configured tunnel) (here refl) refl) refl)
      refl

Reached-IsAccounted_example : IsAccounted toy_net timed
Reached-IsAccounted_example = Reached-IsAccounted toy_net 5 timed timed-Reached

-- A runtime with that name server.
abbrev served : Runtime toy_net
served = record fresh { active_config = tunnel }

server_read : dns_server toy_net served ≡ ok (some (codes "10.8.0.1"))
unfolding dns_server
server_read = refl

label_bad : query_packet 1 (codes "a..b") 1 ≡ err bad_dns_label
unfolding query_packet make_dns_query
label_bad = refl

table_empty : find 1 served.dns_queries ≡ none
unfolding find
table_empty = refl

async_resolve_leaks_example :
    ((async_resolve toy_net 70 (codes "a..b") served).1 ≡ err bad_dns_label)
    × ((async_resolve toy_net 70 (codes "a..b") served).0.dns_queries
        ≡ [] ++ record { id = 1; qtype = 1; pcb = 5; handler = 70 } ∷ [])
    × ((async_resolve toy_net 70 (codes "a..b") served).0.posted ≡ [])
async_resolve_leaks_example =
    async_resolve_leaks toy_net 70 5 (codes "a..b") (codes "10.8.0.1")
      (record { id = 1; qtype = 1; pcb = 5; handler = 70 }) served refl refl server_read refl
      table_empty label_bad

-- The bytes of the mask of 24 bits.
mask_bytes : prefix_to_netmask (pos 24) ≡ ok (255 ∷ 255 ∷ 255 ∷ 0 ∷ [])
unfolding prefix_to_netmask
mask_bytes = refl
