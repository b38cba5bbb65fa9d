-- ===== src/OpenVpn/Quiet.antt =====
-- What a callback of the OpenVPN core leaves alone: a client and a LwipRuntime that do not run stay
-- so, and one handler is called at most.
use ovpn2ss.Common.{
  ℕ, zero, suc, ◌≡◌, refl, ◌∙◌, ap, ◌⊎◌, inl, inr, Bool, false, Option, none, Bytes, List, ◌∷◌, [],
  ◌++◌, arith, Bool-cases, same, codes,
}
use ovpn2ss.Common.Int.{ℤ, pos, negsuc}
use ovpn2ss.Runtime
use ovpn2ss.Runtime.Net.{Net}
use ovpn2ss.Runtime.Config.{apply_tun_config, apply_tun_config_and_output}
use ovpn2ss.Runtime.Packets.{emit_packet}
use ovpn2ss.OpenVpn.TunBuilder.{
  tun_builder_teardown, Builder, TunCall, tun_calls, tun_builder_new, tun_builder_establish,
}
use ovpn2ss.OpenVpn.Collected.{tun_calls-told}
use ovpn2ss.OpenVpn.Tunnel.{
  MemoryTun, Tunnel, Notice, ready, down, notify_tun_ready, notify_tun_down, on_established,
  tun_start, stop_tun, set_disconnect, core_inject, send_l3_packet, emit, event, modify_tun,
  connect, disconnect,
}

module _ (n : Net) where
  pub record IsSteady (t t' : Tunnel n) : Type 0 where
    pub running : t.running ≡ false → t'.running ≡ false
    pub lwip_running : t.builder.lwip.running ≡ false → t'.builder.lwip.running ≡ false
    pub ready_handler : t'.ready_handler ≡ t.ready_handler
    pub disconnect_handler : t'.disconnect_handler ≡ t.disconnect_handler
    pub notified :
        (t'.notified ≡ t.notified) ⊎ ((x : Notice) × (t'.notified ≡ t.notified ++ x ∷ []))

  -- All of these are as they were.
  pub record IsQuiet (t t' : Tunnel n) : Type 0 where
    pub running : t'.running ≡ t.running
    pub lwip_running : t'.builder.lwip.running ≡ t.builder.lwip.running
    pub ready_handler : t'.ready_handler ≡ t.ready_handler
    pub disconnect_handler : t'.disconnect_handler ≡ t.disconnect_handler
    pub notified : t'.notified ≡ t.notified

  quiet_then : (t t1 t2 : Tunnel n) → IsQuiet t t1 → IsSteady t1 t2 → IsSteady t t2
  quiet_then t t1 t2 q v = record {
    running = λ h. v.running (q.running ∙ h);
    lwip_running = λ h. v.lwip_running (q.lwip_running ∙ h);
    ready_handler = v.ready_handler ∙ q.ready_handler;
    disconnect_handler = v.disconnect_handler ∙ q.disconnect_handler;
    notified = rw (q.notified) at v.notified;
  }

  itself-IsSteady : (t : Tunnel n) → IsSteady t t
  itself-IsSteady t = record {
    running = λ h. h;
    lwip_running = λ h. h;
    ready_handler = refl;
    disconnect_handler = refl;
    notified = inl refl;
  }

  pub quiet : (t t' : Tunnel n) → IsQuiet t t' → IsSteady t t'
  quiet t t' q = quiet_then t t' t' q (itself-IsSteady t')

  -- A change of the builder, the current tunnel and the tunnels only.
  pub other_members :
      (t : Tunnel n) (b : Builder n) (current : Option ℕ) (tuns : List MemoryTun)
      → b.lwip.running ≡ t.builder.lwip.running
      → IsQuiet t (record t { builder = b; memory_tun = current; tuns = tuns })
  other_members t b current tuns h = record {
    running = refl;
    lwip_running = h;
    ready_handler = refl;
    disconnect_handler = refl;
    notified = refl;
  }

  notify_tun_down-IsSteady : (t : Tunnel n) → IsSteady t (notify_tun_down n t)
  unfolding notify_tun_down
  notify_tun_down-IsSteady t = record {
    running = λ h. ground arith;
    lwip_running = λ h. ground arith;
    ready_handler = ground arith;
    disconnect_handler = ground arith;
    notified = elim (Bool-cases t.disconnect_handler) [
      | inl e ↦ inr (down, ground arith)
      | inr e ↦ inl (ground arith)
    ];
  }

  notify_tun_ready-IsSteady : (t : Tunnel n) → IsSteady t (notify_tun_ready n t)
  unfolding notify_tun_ready
  notify_tun_ready-IsSteady t = record {
    running = λ h. ground arith;
    lwip_running = λ h. ground arith;
    ready_handler = ground arith;
    disconnect_handler = ground arith;
    notified = elim (Bool-cases t.ready_handler) [
      | inl e ↦ inr (ready, ground arith)
      | inr e ↦ inl (ground arith)
    ];
  }

  on_established-IsSteady :
      (i : ℕ) (answer : ℤ) (t : Tunnel n) → IsSteady t (on_established n i answer t)
  unfolding on_established
  on_established-IsSteady i (pos zero) t =
      quiet_then t (modify_tun n i connect t) _ (other_members t _ _ _ refl)
        (notify_tun_ready-IsSteady (modify_tun n i connect t))
  on_established-IsSteady i (pos (suc k)) t = quiet t _ (other_members t _ _ _ refl)
  on_established-IsSteady i (negsuc k) t = quiet t _ (other_members t _ _ _ refl)

  establish_running : (b : Builder n) → (tun_builder_establish n b).0.lwip.running ≡ b.lwip.running
  unfolding tun_builder_establish apply_tun_config_and_output apply_tun_config
  establish_running b = ground arith

  pub tun_start-IsSteady :
      (i : ℕ) (cs : List (TunCall n)) (throws : Bool) (t : Tunnel n)
      → IsSteady t (tun_start n i cs throws t)
  unfolding tun_start
  tun_start-IsSteady i cs throws t =
      let b = tun_calls n cs (tun_builder_new n t.builder) in
      let b' = (tun_builder_establish n b).0 in
      let same =
        ap (λ (x : Runtime.State.Runtime n). x.running) (tun_calls-told n cs t.builder).0 in
      elim (Bool-cases throws) [
        | inl e ↦ rw (e, tun_start) (quiet t _ (other_members t _ _ _ same))
        | inr e ↦
            rw (e, tun_start)
              (quiet_then t (record t { builder = b' }) _
                (other_members t _ _ _ (establish_running b ∙ same))
                (on_established-IsSteady i (tun_builder_establish n b).1
                  (record t { builder = b' })))
      ]

  pub stop_tun-IsSteady : (i : ℕ) (t : Tunnel n) → IsSteady t (stop_tun n i t)
  unfolding stop_tun
  stop_tun-IsSteady i t =
      let t1 = disconnect n i t in
      let t2 = record t1 { builder = tun_builder_teardown n t1.builder } in
      quiet_then t t2 _ (other_members t _ _ _ refl) (notify_tun_down-IsSteady t2)

  pub set_disconnect-IsSteady : (i : ℕ) (t : Tunnel n) → IsSteady t (set_disconnect n i t)
  unfolding set_disconnect
  set_disconnect-IsSteady i t =
      quiet_then t (disconnect n i t) _ (other_members t _ _ _ refl)
        (notify_tun_down-IsSteady (disconnect n i t))

  pub event-IsSteady : (name : Bytes) (t : Tunnel n) → IsSteady t (event n name t)
  unfolding event
  event-IsSteady name t = elim (Bool-cases (same name (codes "DISCONNECTED"))) [
    | inr e ↦ rw (e, event) (itself-IsSteady t)
    | inl e ↦
        rw (e, event)
          (quiet_then t (record t { memory_tun = none }) _ (other_members t _ _ _ refl)
            (notify_tun_down-IsSteady (record t { memory_tun = none })))
  ]

  pub emit-IsSteady : (whole : Bool) (p : Bytes) (t : Tunnel n) → IsSteady t (emit n whole p t)
  unfolding emit emit_packet send_l3_packet core_inject
  emit-IsSteady whole p t = quiet t (emit n whole p t) (record {
    running = ground arith;
    lwip_running = ground arith;
    ready_handler = ground arith;
    disconnect_handler = ground arith;
    notified = ground arith;
  })
