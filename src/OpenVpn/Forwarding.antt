-- ===== src/OpenVpn/Forwarding.antt =====
-- The packets on their way from lwIP to the OpenVPN core and back, through src/OpenVpnClient.cpp and
-- src/OpenVpnTunBuilder.cpp.
use ovpn2ss.Common.{
  ℕ, zero, suc, ◌≡◌, refl, ◌∙◌, ap, true, false, some, Bytes, List, ◌∷◌, [], ◌++◌, is_empty, length,
  get_elem?, All, arith, append_assoc, append-nil, sym,
}
use ovpn2ss.Runtime.Net.{Net}
use ovpn2ss.Runtime.State.{Runtime}
use ovpn2ss.Runtime.Packets.{on_injected, inject_l3_packet, emit_packet}
use ovpn2ss.OpenVpn.Tunnel.{
  MemoryTun, Tunnel, modify, modify_tun, post_packet, run_posted, core_inject, send_l3_packet, emit,
  inject_from_openvpn, tun_send, run_injected,
}

-- A packet of lwIP, or of the core, is not empty.
abbrev pub ArePackets : List Bytes → Type 0
ArePackets = All (λ p. is_empty p ≡ false)

get_elem?-modify {ℓ} :
    {A : Type ℓ} (i : ℕ) (f : A → A) (xs : List A) (x : A)
    → get_elem? xs i ≡ some x
    → get_elem? (modify i f xs) i ≡ some (f x)
get_elem?-modify i f [] x e = absurd (ground arith)
get_elem?-modify zero f (y ∷ ys) x e = let h : y ≡ x = ground arith in ap (λ z. some (f z)) h
get_elem?-modify (suc i) f (y ∷ ys) x e = get_elem?-modify i f ys x e

module _ (n : Net) where
  -- lwIP emits the packets, and the first `k` of the calls that tunnel `i` has posted run.
  abbrev pub emit_all : List Bytes → Tunnel n → Tunnel n
  emit_all [] t = t
  emit_all (p ∷ ps) t = emit_all ps (emit n true p t)

  abbrev pub run_all : ℕ → ℕ → Tunnel n → Tunnel n
  run_all zero i t = t
  run_all (suc k) i t = run_all k i (modify_tun n i run_posted t)

  -- The client runs and has its output set, and its core has tunnel `i`, in the state `m`.
  record Carries (i : ℕ) (m : MemoryTun) (t : Tunnel n) : Type 0 where
    pub running : t.running ≡ true
    pub output : t.builder.lwip.has_output ≡ true
    pub current : t.memory_tun ≡ some i
    pub found : get_elem? t.tuns i ≡ some m

  post_packet_connected :
      (p : Bytes) (m : MemoryTun)
      → m.connected ≡ true
      → is_empty p ≡ false
      → post_packet p m ≡ record m { posted = m.posted ++ p ∷ [] }
  unfolding post_packet
  post_packet_connected p m c h = ground arith

  emit_tuns :
      (i : ℕ) (p : Bytes) (m : MemoryTun) (t : Tunnel n)
      → Carries i m t
      → is_empty p ≡ false
      → (emit n true p t).tuns ≡ modify i (post_packet p) t.tuns
  unfolding emit emit_packet send_l3_packet core_inject
  emit_tuns i p m t v h = ground (arith, v.running, v.output, v.current)

  emit-Carries :
      (i : ℕ) (p : Bytes) (m : MemoryTun) (t : Tunnel n)
      → Carries i m t
      → is_empty p ≡ false
      → Carries i (post_packet p m) (emit n true p t)
  unfolding emit emit_packet send_l3_packet core_inject
  emit-Carries i p m t v h = record {
    running = ground (arith, v.running);
    output = ground (arith, v.output);
    current = ground (arith, v.current);
    found =
        ap (λ ts. get_elem? ts i) (emit_tuns i p m t v h)
        ∙ get_elem?-modify i (post_packet p) t.tuns m v.found;
  }

  emit_all-Carries :
      (ps : List Bytes) (i : ℕ) (m : MemoryTun) (t : Tunnel n)
      → m.connected ≡ true
      → ArePackets ps
      → Carries i m t
      → Carries i (record m { posted = m.posted ++ ps }) (emit_all ps t)
  emit_all-Carries [] i m t c a v = rw (append-nil m.posted) v
  emit_all-Carries (p ∷ ps) i m t c (a, others) v =
      let m1 = record m { posted = m.posted ++ p ∷ [] } in
      let v1 : Carries i m1 (emit n true p t) =
        rw (post_packet_connected p m c a) at (emit-Carries i p m t v a) in
      rw (append_assoc m.posted (p ∷ []) ps) at
        (emit_all-Carries ps i m1 (emit n true p t) c others v1)

  run_posted_first :
      (m : MemoryTun) (p : Bytes) (rest : List Bytes)
      → m.connected ≡ true
      → m.posted ≡ p ∷ rest
      → run_posted m ≡ record m { posted = rest; received = m.received ++ p ∷ [] }
  unfolding run_posted
  run_posted_first m p rest c e = ground arith

  run_all_found :
      (posted : List Bytes) (i : ℕ) (m : MemoryTun) (t : Tunnel n)
      → m.connected ≡ true
      → m.posted ≡ posted
      → get_elem? t.tuns i ≡ some m
      → get_elem? (run_all (length posted) i t).tuns i
        ≡ some (record m { posted = []; received = m.received ++ posted })
  run_all_found [] i m t c e f = ground (arith, f, e, append-nil m.received)
  run_all_found (p ∷ rest) i m t c e f =
      let m1 = record m { posted = rest; received = m.received ++ p ∷ [] } in
      let f1 : get_elem? (modify i run_posted t.tuns) i ≡ some m1 =
        get_elem?-modify i run_posted t.tuns m f ∙ ap some (run_posted_first m p rest c e) in
      run_all_found rest i m1 (modify_tun n i run_posted t) c refl f1
      ∙ ap (λ r. some (record m { posted = []; received = r }))
          (append_assoc m.received (p ∷ []) rest)

  -- The client runs with its output set, and its core's tunnel is connected. When lwIP emits any
  -- packets that are not empty, whole, and then as many of the tunnel's posted calls run as were
  -- waiting before and packets were emitted, each of the packets that were posted before and of
  -- those that were emitted has been given to the parent once, unchanged and in order, and no call
  -- is left.
  pub tun_recv_emitted :
      (ps : List Bytes) (i : ℕ) (m : MemoryTun) (t : Tunnel n)
      → t.running ≡ true
      → t.builder.lwip.has_output ≡ true
      → t.memory_tun ≡ some i
      → get_elem? t.tuns i ≡ some m
      → m.connected ≡ true
      → ArePackets ps
      → get_elem? (run_all (length (m.posted ++ ps)) i (emit_all ps t)).tuns i
        ≡ some (record m { posted = []; received = m.received ++ (m.posted ++ ps) })
  tun_recv_emitted ps i m t a b d e c all =
      let v =
        emit_all-Carries ps i m t c all
          (record { running = a; output = b; current = d; found = e }) in
      run_all_found (m.posted ++ ps) i (record m { posted = m.posted ++ ps }) (emit_all ps t) c refl
        v.found

  -- The core gives packets to the tunnel, and the calls that this has posted run, with the token of
  -- the runtime still set.
  abbrev pub send_all : List Bytes → Tunnel n → Tunnel n
  send_all [] t = t
  send_all (p ∷ ps) t = send_all ps (tun_send n p t)

  abbrev pub run_injected_all : ℕ → Tunnel n → Tunnel n
  run_injected_all zero t = t
  run_injected_all (suc k) t = run_injected_all k (run_injected n true t)

  abbrev pub inject_all : List Bytes → Runtime n → Runtime n
  inject_all [] r = r
  inject_all (p ∷ ps) r = inject_all ps (inject_l3_packet n p r)

  inject_running : (p : Bytes) (r : Runtime n) → (inject_l3_packet n p r).running ≡ r.running
  unfolding inject_l3_packet
  inject_running p r = ground arith

  send_all_injected :
      (ps : List Bytes) (t : Tunnel n)
      → ArePackets ps
      → send_all ps t ≡ record t { injected = t.injected ++ ps }
  unfolding tun_send inject_from_openvpn
  send_all_injected [] t all = ap (λ x. record t { injected = x }) (sym (append-nil t.injected))
  send_all_injected (p ∷ ps) t (a, others) =
      let t1 = record t { injected = t.injected ++ p ∷ [] } in
      let e : tun_send n p t ≡ t1 = ground arith in
      rw e (
        send_all_injected ps t1 others
        ∙ ap (λ x. record t { injected = x }) (append_assoc t.injected (p ∷ []) ps))

  run_injected_all_lem :
      (ps : List Bytes) (t : Tunnel n)
      → t.injected ≡ ps
      → t.builder.lwip.running ≡ true
      → run_injected_all (length ps) t ≡ record t {
        injected = [];
        builder = record t.builder { lwip = inject_all ps t.builder.lwip };
      }
  unfolding run_injected on_injected
  run_injected_all_lem [] t e r = ground (arith, e)
  run_injected_all_lem (p ∷ ps) t e r =
      let lwip = inject_l3_packet n p t.builder.lwip in
      let t1 = record t { injected = ps; builder = record t.builder { lwip = lwip } } in
      let first : run_injected n true t ≡ t1 = ground (arith, e, r) in
      ap (run_injected_all (length ps)) first
      ∙ run_injected_all_lem ps t1 refl (inject_running p t.builder.lwip ∙ r)

  -- The LwipRuntime runs and no call of post_inject_l3_packet is waiting. When the OpenVPN core
  -- gives the tunnel any packets that are not empty, and as many of the calls that this posts run,
  -- with the token of the runtime still set, the stack has had inject_l3_packet with each packet
  -- once, unchanged and in order, and all else is as it was.
  pub inject_tun_sent :
      (ps : List Bytes) (t : Tunnel n)
      → ArePackets ps
      → t.injected ≡ []
      → t.builder.lwip.running ≡ true
      → run_injected_all (length ps) (send_all ps t)
        ≡ record t { builder = record t.builder { lwip = inject_all ps t.builder.lwip } }
  inject_tun_sent ps t all e r =
      let t1 = record t { injected = t.injected ++ ps } in
      rw (send_all_injected ps t all)
        (run_injected_all_lem ps t1 (ap (λ x. x ++ ps) e) r ∙ ground (arith, e))
