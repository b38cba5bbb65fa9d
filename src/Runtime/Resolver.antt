-- ===== src/Runtime/Resolver.antt =====
-- async_resolve and the ways in which a query is completed.
use ovpn2ss.Common.{
  ℕ, ◌+◌, ◌%◌, ◌^◌, Bool, true, Option, none, some, Bytes, List, [], ◌∷◌, ◌++◌, ◌==◌, if◌then◌else◌,
  length, take, is_some,
}
use ovpn2ss.Common.Outcome.{Result, ok, err, bad_dns_label}
use ovpn2ss.Lwip.{Err, err_ok, err_mem, err_rte, err_val, err_timeout}
use ovpn2ss.TcpRelay.Closing.{is_ok}
use ovpn2ss.Dns.Query.{dns_type_a, dns_type_aaaa, make_dns_query}
use ovpn2ss.Dns.Response.{parse_dns_response}
use ovpn2ss.Runtime.Net.{Net}
use ovpn2ss.Runtime.State.{Query, Runtime}
use ovpn2ss.Runtime.Config.{dns_server}

-- `dns_queries_.find(id)`.
unfoldable pub find : ℕ → List Query → Option Query
find id [] = none
find id (q ∷ qs) = if q.id == id then some q else find id qs

unfoldable pub without : ℕ → List Query → List Query
without id [] = []
without id (q ∷ qs) = let rest = without id qs in if q.id == id then qs else q ∷ rest

-- The query for a host; the loop in make_dns_query does not run out of rounds.
unfoldable pub query_packet : ℕ → Bytes → ℕ → Result Bytes
query_packet id host qtype = elim (make_dns_query id host qtype) [
  | none ↦ err bad_dns_label
  | some answer ↦ answer
]

module _ (n : Net) where
  abbrev pub post : ℕ → Err → Option n.Ip → Runtime n → Runtime n
  post h e ip r = record r { posted = r.posted ++ record { handler = h; error = e; ip = ip } ∷ [] }

  unfoldable pub complete_dns_query : ℕ → Err → Option n.Ip → Runtime n → Runtime n
  unfolding find without
  complete_dns_query id e ip r = elim (find id r.dns_queries) [
    | none ↦ r
    | some q ↦
        post q.handler e ip
          (record r { dns_queries = without id r.dns_queries; lwip = n.udp_remove r.lwip q.pcb })
  ]

  -- `dns_queries_.emplace(id, query)`: with an entry of that id there, the new query is not put into
  -- the table, and its handler is lost with it.
  unfoldable pub emplace : Query → Runtime n → Runtime n
  unfolding find
  emplace q r =
      if is_some (find q.id r.dns_queries)
      then record r { dropped = q.handler ∷ r.dropped }
      else record r { dns_queries = r.dns_queries ++ q ∷ [] }

  -- pbuf_alloc and udp_sendto; the size is cut to a u16_t.
  unfoldable pub send_query : ℕ → Bytes → n.Ip → n.State → Err × n.State
  send_query pcb packet server lwip =
      let (room, lwip1) = n.pbuf_alloc lwip (length packet % 2 ^ 16) in
      if room
      then n.udp_sendto lwip1 pcb (take (length packet % 2 ^ 16) packet) server
      else (err_mem, lwip1)

  -- The part of async_resolve behind the new pcb. The start of the five seconds is left out.
  unfoldable pub ask : Query → Bytes → n.Ip → Runtime n → Runtime n × Result (Unit {0})
  unfolding complete_dns_query emplace send_query query_packet
  ask q host server r =
      let r1 = emplace q (record r { lwip = n.udp_recv r.lwip q.pcb }) in
      elim (query_packet q.id host q.qtype) [
        | err e ↦ (r1, err e)
        | ok packet ↦
            let (e, lwip) = send_query q.pcb packet server r1.lwip in
            let r2 = record r1 { lwip = lwip } in
            if is_ok e then (r2, ok tt) else (complete_dns_query q.id e none r2, ok tt)
      ]

  -- The part behind the server.
  unfoldable pub query_server : ℕ → Bytes → n.Ip → Runtime n → Runtime n × Result (Unit {0})
  unfolding ask
  query_server h host server r =
      let id = r.next_id % 2 ^ 16 in
      let qtype = if n.is_v6 server then dns_type_aaaa else dns_type_a in
      let (fresh, lwip) = n.udp_new r.lwip in
      let r1 = record r { next_id = (r.next_id + 1) % 2 ^ 32; lwip = lwip } in
      elim fresh [
        | none ↦ (post h err_mem none r1, ok tt)
        | some p ↦ ask (record { id = id; qtype = qtype; pcb = p; handler = h }) host server r1
      ]

  -- async_resolve with handler `h`. If dns_server throws, the handler is destroyed.
  unfoldable pub async_resolve : ℕ → Bytes → Runtime n → Runtime n × Result (Unit {0})
  unfolding query_server dns_server
  async_resolve h host r =
      let r1 = record r { has_token = true; asked = h ∷ r.asked } in
      elim (n.ipaddr_aton host) [
        | some ip ↦ (post h err_ok (some ip) r1, ok tt)
        | none ↦ elim (dns_server n r1) [
          | err e ↦ (record r1 { dropped = h ∷ r1.dropped }, err e)
          | ok found ↦ elim found [
            | none ↦ (post h err_rte none r1, ok tt)
            | some server ↦ query_server h host server r1
          ]
        ]
      ]

  -- The handler of the timer of query `id`, if the wait was not cancelled.
  unfoldable pub on_timeout : Bool → ℕ → Runtime n → Runtime n
  unfolding complete_dns_query
  on_timeout token id r = if token then complete_dns_query id err_timeout none r else r

  -- dns_recv on query `q`. A read out of bounds does not occur in parse_dns_response.
  unfoldable pub dns_recv : Query → Bytes → Runtime n → Runtime n
  unfolding complete_dns_query
  dns_recv q packet r = elim (parse_dns_response packet q.id q.qtype) [
    | err e ↦ r
    | ok found ↦ elim found [
      | none ↦ complete_dns_query q.id err_val none r
      | some ip ↦ complete_dns_query q.id err_ok (some (n.of_answer ip)) r
    ]
  ]
