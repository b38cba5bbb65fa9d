-- ===== src/Runtime/Emitting.antt =====
-- Only emit_packet gives packets to the output, and only start begins to run.
use ovpn2ss.Common.{
  ℕ, ◌≡◌, refl, inl, inr, Bool, true, false, Option, none, Bytes, ◌∷◌, arith, Option-cases,
}
use ovpn2ss.Common.Outcome.{Result-cases}
use ovpn2ss.Lwip.{Err, err_timeout}
use ovpn2ss.Runtime.Net.{Net}
use ovpn2ss.Runtime.State.{Runtime, Query}
use ovpn2ss.Runtime.Config.{apply_tun_config, apply_tun_config_and_output, dns_server}
use ovpn2ss.Runtime.Packets.{
  start, stop, poll_timeouts, on_timer, inject_l3_packet, on_injected, emit_packet,
}
use ovpn2ss.Runtime.Resolver.{
  complete_dns_query, emplace, ask, query_server, async_resolve, on_timeout, dns_recv,
}
use ovpn2ss.Runtime.Events.{
  Event, started, stopped, ticked, configured, configured_with_output, injected, emitted, resolves,
  timed_out, heard, drawn_elsewhere, step,
}

abbrev pub is_emission : Event → Bool
is_emission (emitted whole packet) = true
is_emission _ = false

abbrev pub is_start : Event → Bool
is_start started = true
is_start _ = false

module _ (n : Net) where
  -- Nothing is emitted, and a runtime that does not run stays so.
  record IsMute (r r' : Runtime n) : Type 0 where
    pub emitted : r'.emitted ≡ r.emitted
    pub running : r.running ≡ false → r'.running ≡ false

  complete-IsMute :
      (id : ℕ) (e : Err) (ip : Option n.Ip) (r : Runtime n)
      → IsMute r (complete_dns_query n id e ip r)
  unfolding complete_dns_query
  complete-IsMute id e ip r = record { emitted = ground arith; running = λ h. ground arith }

  ask-IsMute :
      (q : Query) (host : Bytes) (server : n.Ip) (r : Runtime n)
      → IsMute r (ask n q host server r).0
  unfolding ask emplace complete_dns_query
  ask-IsMute q host server r = record { emitted = ground arith; running = λ h. ground arith }

  query_server-IsMute :
      (h : ℕ) (host : Bytes) (server : n.Ip) (r : Runtime n)
      → IsMute r (query_server n h host server r).0
  unfolding query_server
  query_server-IsMute h host server r = elim (Option-cases (n.udp_new r.lwip).0) [
    | inl e ↦ rw (e, query_server) (record { emitted = refl; running = λ h. h })
    | inr (p, e) ↦
        let m = ask-IsMute _ host server _ in
        rw (e, query_server) (record { emitted = m.emitted; running = m.running })
  ]

  async_resolve-IsMute :
      (h : ℕ) (host : Bytes) (r : Runtime n) → IsMute r (async_resolve n h host r).0
  unfolding async_resolve
  async_resolve-IsMute h host r =
      let r1 = record r { has_token = true; asked = h ∷ r.asked } in
      elim (Option-cases (n.ipaddr_aton host)) [
        | inr (ip, e) ↦ rw (e, async_resolve) (record { emitted = refl; running = λ h. h })
        | inl e ↦ elim (Result-cases (dns_server n r1)) [
          | inr (x, f) ↦ rw (e, f, async_resolve) (record { emitted = refl; running = λ h. h })
          | inl (found, f) ↦ elim (Option-cases found) [
            | inl g ↦ rw (e, f, g, async_resolve) (record { emitted = refl; running = λ h. h })
            | inr (server, g) ↦
                let m = query_server-IsMute h host server r1 in
                rw (e, f, g, async_resolve) (record { emitted = m.emitted; running = m.running })
          ]
        ]
      ]

  dns_recv-IsMute : (q : Query) (packet : Bytes) (r : Runtime n) → IsMute r (dns_recv n q packet r)
  unfolding dns_recv complete_dns_query
  dns_recv-IsMute q packet r = record { emitted = ground arith; running = λ h. ground arith }

  pub step-emitted :
      (e : Event) (r : Runtime n) → is_emission e ≡ false → (step n e r).emitted ≡ r.emitted
  unfolding step start stop on_timer poll_timeouts apply_tun_config apply_tun_config_and_output
      on_injected inject_l3_packet on_timeout
  step-emitted started r h = ground arith
  step-emitted stopped r h = ground arith
  step-emitted (ticked failed) r h = ground arith
  step-emitted (configured config) r h = ground arith
  step-emitted (configured_with_output config) r h = ground arith
  step-emitted (injected token packet) r h = ground arith
  step-emitted (emitted whole packet) r h = absurd (ground arith)
  step-emitted (resolves h' host) r h = (async_resolve-IsMute h' host r).emitted
  step-emitted (timed_out token id) r h =
      ground (arith, (complete-IsMute id err_timeout none r).emitted)
  step-emitted (heard q packet) r h = (dns_recv-IsMute q packet r).emitted
  step-emitted (drawn_elsewhere id) r h = refl

  pub step-running :
      (e : Event) (r : Runtime n)
      → is_start e ≡ false
      → r.running ≡ false
      → (step n e r).running ≡ false
  unfolding step stop on_timer poll_timeouts apply_tun_config apply_tun_config_and_output
      on_injected inject_l3_packet on_timeout emit_packet
  step-running started r h f = absurd (ground arith)
  step-running stopped r h f = ground arith
  step-running (ticked failed) r h f = ground arith
  step-running (configured config) r h f = ground arith
  step-running (configured_with_output config) r h f = ground arith
  step-running (injected token packet) r h f = ground arith
  step-running (emitted whole packet) r h f = ground arith
  step-running (resolves h' host) r h f = (async_resolve-IsMute h' host r).running f
  step-running (timed_out token id) r h f =
      ground (arith, (complete-IsMute id err_timeout none r).running)
  step-running (heard q packet) r h f = (dns_recv-IsMute q packet r).running f
  step-running (drawn_elsewhere id) r h f = f
