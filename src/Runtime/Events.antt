-- ===== src/Runtime/Events.antt =====
-- What can happen to a LwipRuntime, the runtimes that are reached, and the handlers in them.
use ovpn2ss.Common.{
  ℕ, ◌+◌, ◌≡◌, refl, ap, sym, ◌∙◌, inl, inr, Bool, true, false, not, ◌||◌, none, some, Bytes, [],
  ◌∷◌, ◌++◌, if◌then◌else◌, arith, Bool-cases, Option-cases, count-append, ◌%◌, ◌^◌,
}
use ovpn2ss.Common.Outcome.{ok, err, Result-cases, bad_dns_label}
use ovpn2ss.Lwip.{err_ok, err_val, err_timeout}
use ovpn2ss.Dns.Response.{parse_dns_response}
use ovpn2ss.Dns.Query.{dns_type_a, dns_type_aaaa}
use ovpn2ss.Runtime.Net.{Net}
use ovpn2ss.Runtime.State.{TunConfig, Query, Runtime, init}
use ovpn2ss.Runtime.Config.{apply_tun_config, apply_tun_config_and_output, dns_server}
use ovpn2ss.Runtime.Packets.{
  start, handlers, stop, poll_timeouts, on_timer, inject_l3_packet, on_injected, emit_packet,
}
use ovpn2ss.Runtime.Resolver.{
  find, query_packet, emplace, ask, query_server, async_resolve, on_timeout, dns_recv,
}
use ovpn2ss.Runtime.Handlers.{
  IsAccounted, complete_dns_query-IsAccounted, async_resolve-IsAccounted,
}

pub data Event : Type 0 where
  started stopped : Event
  ticked : Bool → Event
  configured configured_with_output : TunConfig → Event
  injected emitted : Bool → Bytes → Event
  resolves : ℕ → Bytes → Event
  timed_out : Bool → ℕ → Event
  heard : Query → Bytes → Event
  -- Another LwipRuntime of the process has drawn from the counter of the query ids, which is static.
  drawn_elsewhere : ℕ → Event

module _ (n : Net) where
  unfoldable pub step : Event → Runtime n → Runtime n
  unfolding start stop on_timer apply_tun_config apply_tun_config_and_output on_injected emit_packet
      async_resolve on_timeout dns_recv
  step started r = start n r
  step stopped r = stop n r
  step (ticked failed) r = (on_timer n failed r).0
  step (configured config) r = (apply_tun_config n config r).0
  step (configured_with_output config) r = (apply_tun_config_and_output n config r).0
  step (injected token packet) r = on_injected n token packet r
  step (emitted whole packet) r = (emit_packet n whole packet r).0
  step (resolves h host) r = (async_resolve n h host r).0
  step (timed_out token id) r = on_timeout n token id r
  step (heard q packet) r = dns_recv n q packet r
  step (drawn_elsewhere id) r = record r { next_id = id }

  -- `r` comes from `r0` by events.
  pub data Reached (r0 : Runtime n) : Runtime n → Type 0 where
    here : {r : Runtime n} → r ≡ r0 → Reached r0 r
    more : {r r' : Runtime n} (e : Event) → Reached r0 r → r' ≡ step e r → Reached r0 r'

  stop-IsAccounted : (r : Runtime n) → IsAccounted n r → IsAccounted n (stop n r)
  unfolding stop
  stop-IsAccounted r v = record {
    accounts =
        λ h. omega (arith, v.accounts h, count-append h (handlers n r.dns_queries) r.dropped);
  }

  start-IsAccounted : (r : Runtime n) → IsAccounted n r → IsAccounted n (start n r)
  unfolding start
  start-IsAccounted r v = record { accounts = λ h. ground (arith, v.accounts h) }

  on_timer-IsAccounted :
      (failed : Bool) (r : Runtime n) → IsAccounted n r → IsAccounted n (on_timer n failed r).0
  unfolding on_timer poll_timeouts
  on_timer-IsAccounted failed r v =
      let r1 = record r { lwip = (n.sys_check_timeouts r.lwip).1 } in
      let v1 : IsAccounted n r1 = record { accounts = v.accounts } in
      elim (Bool-cases (failed || not r.running)) [
        | inl e ↦ rw (e, on_timer) v
        | inr e ↦ elim (Result-cases (n.sys_check_timeouts r.lwip).0) [
          | inl (done, f) ↦ rw (e, f, on_timer, poll_timeouts) v1
          | inr (x, f) ↦ rw (e, f, on_timer, poll_timeouts) (stop-IsAccounted r1 v1)
        ]
      ]

  configured-IsAccounted :
      (config : TunConfig) (r : Runtime n)
      → IsAccounted n r
      → IsAccounted n (apply_tun_config_and_output n config r).0
  unfolding apply_tun_config_and_output apply_tun_config
  configured-IsAccounted config r v = elim (Result-cases (apply_tun_config n config r).1) [
    | inl (done, e) ↦ rw (e, apply_tun_config_and_output) (record { accounts = v.accounts })
    | inr (x, e) ↦ rw (e, apply_tun_config_and_output) (record { accounts = v.accounts })
  ]

  on_injected-IsAccounted :
      (token : Bool) (packet : Bytes) (r : Runtime n)
      → IsAccounted n r
      → IsAccounted n (on_injected n token packet r)
  unfolding on_injected inject_l3_packet
  on_injected-IsAccounted token packet r v = record { accounts = λ h. ground (arith, v.accounts h) }

  emit_packet-IsAccounted :
      (whole : Bool) (packet : Bytes) (r : Runtime n)
      → IsAccounted n r
      → IsAccounted n (emit_packet n whole packet r).0
  unfolding emit_packet
  emit_packet-IsAccounted whole packet r v = record { accounts = λ h. ground (arith, v.accounts h) }

  dns_recv-IsAccounted :
      (q : Query) (packet : Bytes) (r : Runtime n)
      → IsAccounted n r
      → IsAccounted n (dns_recv n q packet r)
  unfolding dns_recv
  dns_recv-IsAccounted q packet r v = elim (Result-cases (parse_dns_response packet q.id q.qtype)) [
    | inr (x, e) ↦ rw (e, dns_recv) v
    | inl (found, e) ↦ elim (Option-cases found) [
      | inl f ↦ rw (e, f, dns_recv) (complete_dns_query-IsAccounted n q.id err_val none r v)
      | inr (ip, f) ↦
          rw (e, f, dns_recv)
            (complete_dns_query-IsAccounted n q.id err_ok (some (n.of_answer ip)) r v)
    ]
  ]

  on_timeout-IsAccounted :
      (token : Bool) (id : ℕ) (r : Runtime n)
      → IsAccounted n r
      → IsAccounted n (on_timeout n token id r)
  unfolding on_timeout
  on_timeout-IsAccounted true id r v = complete_dns_query-IsAccounted n id err_timeout none r v
  on_timeout-IsAccounted false id r v = v

  step-IsAccounted : (e : Event) (r : Runtime n) → IsAccounted n r → IsAccounted n (step e r)
  unfolding step apply_tun_config
  step-IsAccounted started r v = start-IsAccounted r v
  step-IsAccounted stopped r v = stop-IsAccounted r v
  step-IsAccounted (ticked failed) r v = on_timer-IsAccounted failed r v
  step-IsAccounted (configured config) r v = record { accounts = v.accounts }
  step-IsAccounted (configured_with_output config) r v = configured-IsAccounted config r v
  step-IsAccounted (injected token packet) r v = on_injected-IsAccounted token packet r v
  step-IsAccounted (emitted whole packet) r v = emit_packet-IsAccounted whole packet r v
  step-IsAccounted (resolves h host) r v = async_resolve-IsAccounted n h host r v
  step-IsAccounted (timed_out token id) r v = on_timeout-IsAccounted token id r v
  step-IsAccounted (heard q packet) r v = dns_recv-IsAccounted q packet r v
  step-IsAccounted (drawn_elsewhere id) r v = record { accounts = v.accounts }

  -- In every runtime that is reached from a new one by any events, each handler that async_resolve
  -- was given was posted for its call, waits in the table of queries or was destroyed, and just one
  -- of these for each time that it was given.
  pub Reached-IsAccounted : (s : n.State) (r : Runtime n) → Reached (init n s) r → IsAccounted n r
  Reached-IsAccounted s r (here e) = rw e (record { accounts = λ h. refl })
  Reached-IsAccounted s r (more {r = before} e run is) =
      rw is (step-IsAccounted e before (Reached-IsAccounted s before run))

  emplace_new :
      (q : Query) (r : Runtime n)
      → find q.id r.dns_queries ≡ none
      → emplace n q r ≡ record r { dns_queries = r.dns_queries ++ q ∷ [] }
  unfolding emplace
  emplace_new q r e = rw (e, emplace) refl

  -- async_resolve is asked for a name that is no address and has a bad label; there is a name
  -- server, lwIP gives a pcb, and the id is free. It throws, and leaves the query and its pcb in
  -- the table, with no call posted.
  pub async_resolve_leaks :
      (h p : ℕ) (host : Bytes) (server : n.Ip) (q : Query) (r : Runtime n)
      → q ≡ record {
        id = r.next_id % 2 ^ 16;
        qtype = if n.is_v6 server then dns_type_aaaa else dns_type_a;
        pcb = p;
        handler = h;
      }
      → n.ipaddr_aton host ≡ none
      → dns_server n r ≡ ok (some server)
      → (n.udp_new r.lwip).0 ≡ some p
      → find q.id r.dns_queries ≡ none
      → query_packet q.id host q.qtype ≡ err bad_dns_label
      → ((async_resolve n h host r).1 ≡ err bad_dns_label)
        × ((async_resolve n h host r).0.dns_queries ≡ r.dns_queries ++ q ∷ [])
        × ((async_resolve n h host r).0.posted ≡ r.posted)
  unfolding async_resolve query_server ask dns_server
  async_resolve_leaks h p host server q r is a b d e f =
      let id = r.next_id % 2 ^ 16 in
      let q' : Query = record {
        id = id;
        qtype = if n.is_v6 server then dns_type_aaaa else dns_type_a;
        pcb = p;
        handler = h;
      } in
      let e' : find id r.dns_queries ≡ none =
        ap (λ (x : Query). find x.id r.dns_queries) (sym is) ∙ e in
      let f' : query_packet id host q'.qtype ≡ err bad_dns_label =
        ap (λ (x : Query). query_packet x.id host x.qtype) (sym is) ∙ f in
      let r1 = record r {
        has_token = true;
        asked = h ∷ r.asked;
        next_id = (r.next_id + 1) % 2 ^ 32;
        lwip = n.udp_recv (n.udp_new r.lwip).1 p;
      } in
      rw (a, async_resolve, b, query_server, d, ask, f', emplace_new q' r1 e')
        (refl, ap (λ x. r.dns_queries ++ x ∷ []) (sym is), refl)
