-- ===== src/OpenVpn/Started.antt =====
-- What tun_start of src/OpenVpnClient.cpp leaves, whatever the OpenVPN core tells of the tunnel.
use ovpn2ss.Common.{
  ℕ, zero, suc, ◌≡◌, refl, ◌∙◌, ◌⊎◌, inl, inr, true, false, List, ◌∷◌, [], ◌++◌, if◌then◌else◌,
  arith, ap,
}
use ovpn2ss.Common.Int.{ℤ, pos, negsuc}
use ovpn2ss.Runtime.Net.{Net}
use ovpn2ss.OpenVpn.TunBuilder.{TunCall, Builder, tun_calls, tun_builder_new, tun_builder_establish}
use ovpn2ss.OpenVpn.Collected.{told, tun_calls-told, tun_builder_establish-tun_calls}
use ovpn2ss.OpenVpn.Tunnel.{
  Tunnel, tun_setup_failed, tun_iface_create, ready, tell, modify, connect, on_established,
  notify_tun_ready, tun_start,
}

module _ (n : Net) where
  -- How tun_start goes on when tun_builder_establish has answered.
  on_established_lem :
      (i : ℕ) (answer : ℤ) (t : Tunnel n)
      → let t' = on_established n i answer t in
        (t'.builder ≡ t.builder)
        × (answer ≡ pos 0
            → (t'.tuns ≡ modify i connect t.tuns)
              × (t'.notified ≡ (if t.ready_handler then t.notified ++ ready ∷ [] else t.notified)))
        × (answer ≡ negsuc 0
            → (t'.tuns ≡ modify i (tell tun_iface_create) t.tuns) × (t'.notified ≡ t.notified))
  unfolding on_established notify_tun_ready
  on_established_lem i (pos zero) t = (ground arith, λ h. ground arith, λ h. absurd (ground arith))
  on_established_lem i (pos (suc k)) t =
      (refl, λ h. absurd (ground arith), λ h. absurd (ground arith))
  on_established_lem i (negsuc k) t = (refl, λ h. absurd (ground arith), λ h. (refl, refl))

  -- tun_start of a tunnel, whatever calls configure_builder makes. If it returns, what the calls
  -- told is the active configuration, and either the tunnel is connected, its parent is told so,
  -- the output is set, and the ready handler is called if there is one; or the parent is told that
  -- the interface could not be made, and the tunnel, the output and the handlers are as they were.
  -- If configure_builder throws, the parent is told that the setup failed, and the LwipRuntime and
  -- the handlers are as they were.
  pub tun_start_lem :
      (i : ℕ) (cs : List (TunCall n)) (t : Tunnel n)
      → (let t' = tun_start n i cs false t in
          (t'.builder.lwip.active_config ≡ told n cs)
          × (((t'.tuns ≡ modify i connect t.tuns)
                × (t'.builder.lwip.has_output ≡ true)
                × (t'.notified
                    ≡ (if t.ready_handler then t.notified ++ ready ∷ [] else t.notified)))
              ⊎ ((t'.tuns ≡ modify i (tell tun_iface_create) t.tuns)
                  × (t'.builder.lwip.has_output ≡ t.builder.lwip.has_output)
                  × (t'.notified ≡ t.notified))))
        × (let t' = tun_start n i cs true t in
            (t'.tuns ≡ modify i (tell tun_setup_failed) t.tuns)
            × (t'.builder.lwip ≡ t.builder.lwip)
            × (t'.notified ≡ t.notified))
  unfolding tun_start
  tun_start_lem i cs t =
      let b = tun_calls n cs (tun_builder_new n t.builder) in
      let (b', answer) = tun_builder_establish n b in
      let (active, done) = tun_builder_establish-tun_calls n cs t.builder in
      let (kept, succeeds, refuses) = on_established_lem i answer (record t { builder = b' }) in
      (
        (
          ap (λ (x : Builder n). x.lwip.active_config) kept ∙ active,
          elim done [
            | inl (succeeded, output) ↦
                let (tuns, notified) = succeeds succeeded in
                inl (tuns, ap (λ (x : Builder n). x.lwip.has_output) kept ∙ output, notified)
            | inr (failed, output) ↦
                let (tuns, notified) = refuses failed in
                inr (tuns, ap (λ (x : Builder n). x.lwip.has_output) kept ∙ output, notified)
          ],
        ),
        (refl, (tun_calls-told n cs t.builder).0, refl),
      )
