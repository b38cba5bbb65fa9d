-- ===== src/Runtime/Handlers.antt =====
-- What becomes of the handlers that async_resolve is given.
use ovpn2ss.Common.{
  ℕ, ◌+◌, ◌≡◌, inl, inr, true, Option, none, some, Bytes, List, [], ◌∷◌, ◌++◌, ◌==◌, if◌then◌else◌,
  is_some, arith, Bool-cases, Option-cases, count, ◌%◌, ◌^◌,
}
use ovpn2ss.Common.Outcome.{Result-cases}
use ovpn2ss.Lwip.{Err, err_ok, err_mem, err_rte}
use ovpn2ss.TcpRelay.Closing.{is_ok}
use ovpn2ss.Dns.Query.{dns_type_a, dns_type_aaaa}
use ovpn2ss.Runtime.Net.{Net}
use ovpn2ss.Runtime.State.{Query, Call, Runtime}
use ovpn2ss.Runtime.Config.{dns_server}
use ovpn2ss.Runtime.Packets.{handlers}
use ovpn2ss.Runtime.Resolver.{
  find, without, query_packet, post, complete_dns_query, emplace, send_query, ask, query_server,
  async_resolve,
}

module _ (n : Net) where
  abbrev pub called : List (Call n) → List ℕ
  called [] = []
  called (c ∷ cs) = c.handler ∷ called cs

  -- Every handler was called, waits in the table or was destroyed, as often as it was given.
  pub record IsAccounted (r : Runtime n) : Type 0 where
    pub accounts :
        (h : ℕ)
        → count h r.asked
          ≡ count h (called r.posted) + count h (handlers n r.dns_queries) + count h r.dropped

  count-called :
      (h : ℕ) (cs : List (Call n)) (c : Call n)
      → count h (called (cs ++ c ∷ [])) ≡ count h (called cs) + count h (c.handler ∷ [])
  count-called h [] c = omega arith
  count-called h (x ∷ cs) c = omega (arith, count-called h cs c)

  count-handlers :
      (h : ℕ) (qs : List Query) (q : Query)
      → count h (handlers n (qs ++ q ∷ [])) ≡ count h (handlers n qs) + count h (q.handler ∷ [])
  count-handlers h [] q = omega arith
  count-handlers h (x ∷ qs) q = omega (arith, count-handlers h qs q)

  handlers-without :
      (h id : ℕ) (qs : List Query) (q : Query)
      → find id qs ≡ some q
      → count h (handlers n qs) ≡ count h (q.handler ∷ []) + count h (handlers n (without id qs))
  unfolding find without
  handlers-without h id [] q e = ground arith
  handlers-without h id (x ∷ qs) q e = elim (Bool-cases (x.id == id)) [
    | inl s ↦ let hit : x ≡ q = ground arith in rw (s, without, ← hit) (omega arith)
    | inr s ↦
        let later : find id qs ≡ some q = ground arith in
        rw (s, without) (omega (arith, handlers-without h id qs q later))
  ]

  -- One more handler is owed than the lists account for.
  IsOwed : ℕ → Runtime n → Type 0
  IsOwed h0 r =
      (h : ℕ)
      → count h r.asked
        ≡ count h (h0 ∷ [])
          + count h (called r.posted)
          + count h (handlers n r.dns_queries)
          + count h r.dropped

  post-IsAccounted :
      (h0 : ℕ) (e : Err) (ip : Option n.Ip) (r : Runtime n)
      → IsOwed h0 r
      → IsAccounted (post n h0 e ip r)
  unfolding IsOwed
  post-IsAccounted h0 e ip r v = record {
    accounts = λ h.
        omega (arith, v h, count-called h r.posted (record { handler = h0; error = e; ip = ip }));
  }

  pub complete_dns_query-IsAccounted :
      (id : ℕ) (e : Err) (ip : Option n.Ip) (r : Runtime n)
      → IsAccounted r
      → IsAccounted (complete_dns_query n id e ip r)
  unfolding complete_dns_query IsOwed
  complete_dns_query-IsAccounted id e ip r v = elim (Option-cases (find id r.dns_queries)) [
    | inl f ↦ rw (f, complete_dns_query) v
    | inr (q, f) ↦
        rw (f, complete_dns_query)
          (post-IsAccounted q.handler e ip
            (record r { dns_queries = without id r.dns_queries; lwip = n.udp_remove r.lwip q.pcb })
            (λ h. omega (arith, v.accounts h, handlers-without h id r.dns_queries q f)))
  ]

  emplace-IsAccounted :
      (q : Query) (r : Runtime n) → IsOwed q.handler r → IsAccounted (emplace n q r)
  unfolding emplace IsOwed
  emplace-IsAccounted q r v = elim (Bool-cases (is_some (find q.id r.dns_queries))) [
    | inl e ↦ rw (e, emplace) (record { accounts = λ h. omega (arith, v h) })
    | inr e ↦
        rw (e, emplace)
          (record { accounts = λ h. omega (arith, v h, count-handlers h r.dns_queries q) })
  ]

  ask-IsAccounted :
      (q : Query) (host : Bytes) (server : n.Ip) (r : Runtime n)
      → IsOwed q.handler r
      → IsAccounted (ask n q host server r).0
  unfolding ask IsOwed
  ask-IsAccounted q host server r v =
      let r0 = record r { lwip = n.udp_recv r.lwip q.pcb } in
      let k = emplace-IsAccounted q r0 v in
      elim (Result-cases (query_packet q.id host q.qtype)) [
        | inr (x, e) ↦ rw (e, ask) k
        | inl (packet, e) ↦
            let (x, lwip) = send_query n q.pcb packet server (emplace n q r0).lwip in
            let r2 = record (emplace n q r0) { lwip = lwip } in
            let k2 : IsAccounted r2 = record { accounts = k.accounts } in
            elim (Bool-cases (is_ok x)) [
              | inl f ↦ rw (e, ask, f) k2
              | inr f ↦ rw (e, ask, f) (complete_dns_query-IsAccounted q.id x none r2 k2)
            ]
      ]

  query_server-IsAccounted :
      (h0 : ℕ) (host : Bytes) (server : n.Ip) (r : Runtime n)
      → IsOwed h0 r
      → IsAccounted (query_server n h0 host server r).0
  unfolding query_server IsOwed
  query_server-IsAccounted h0 host server r v =
      let r1 = record r { next_id = (r.next_id + 1) % 2 ^ 32; lwip = (n.udp_new r.lwip).1 } in
      elim (Option-cases (n.udp_new r.lwip).0) [
        | inl e ↦ rw (e, query_server) (post-IsAccounted h0 err_mem none r1 v)
        | inr (p, e) ↦
            rw (e, query_server)
              (ask-IsAccounted
                (record {
                  id = r.next_id % 2 ^ 16;
                  qtype = if n.is_v6 server then dns_type_aaaa else dns_type_a;
                  pcb = p;
                  handler = h0;
                })
                host server r1 v)
      ]

  pub async_resolve-IsAccounted :
      (h0 : ℕ) (host : Bytes) (r : Runtime n)
      → IsAccounted r
      → IsAccounted (async_resolve n h0 host r).0
  unfolding async_resolve IsOwed
  async_resolve-IsAccounted h0 host r v =
      let r1 = record r { has_token = true; asked = h0 ∷ r.asked } in
      let owed : IsOwed h0 r1 = λ h. omega (arith, v.accounts h) in
      elim (Option-cases (n.ipaddr_aton host)) [
        | inr (ip, e) ↦ rw (e, async_resolve) (post-IsAccounted h0 err_ok (some ip) r1 owed)
        | inl e ↦ elim (Result-cases (dns_server n r1)) [
          | inr (x, f) ↦
              rw (e, async_resolve, f) (record { accounts = λ h. omega (arith, v.accounts h) })
          | inl (found, f) ↦ elim (Option-cases found) [
            | inl g ↦ rw (e, async_resolve, f, g) (post-IsAccounted h0 err_rte none r1 owed)
            | inr (server, g) ↦
                rw (e, async_resolve, f, g) (query_server-IsAccounted h0 host server r1 owed)
          ]
        ]
      ]
