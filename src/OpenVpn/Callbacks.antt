-- ===== src/OpenVpn/Callbacks.antt =====
-- The invariant of an OpenVpnClient and its tunnels, and the callbacks of the OpenVPN core.
use ovpn2ss.Common.{
  ℕ, zero, suc, ◌<◌, ◌≡◌, refl, ◌∙◌, ap, sym, inl, inr, Bool, some, List, ◌∷◌, [], length, All,
  arith, Bool-cases, length-append, All-append_one,
}
use ovpn2ss.Common.Int.{ℤ, pos, negsuc}
use ovpn2ss.Runtime
use ovpn2ss.Runtime.Net.{Net}
use ovpn2ss.Runtime.Config.{apply_tun_config, apply_tun_config_and_output}
use ovpn2ss.OpenVpn.TunBuilder.{Builder, TunCall, tun_calls, tun_builder_new, tun_builder_establish}
use ovpn2ss.OpenVpn.Collected.{tun_calls-told}
use ovpn2ss.OpenVpn.Tunnel.{
  MemoryTun, new_tun, modify, tell, connect, tun_setup_failed, tun_iface_create, Tunnel,
  new_tun_client_obj, notify_tun_ready, notify_tun_down, on_established, tun_start, modify_tun,
}
use ovpn2ss.OpenVpn.Traced.{IsTraced, tell-IsTraced, connect-IsTraced, new_tun-IsTraced}

All-modify {ℓ κ} :
    {A : Type ℓ} (P : A → Type κ) (i : ℕ) (f : A → A) (xs : List A)
    → ((x : A) → P x → P (f x))
    → All P xs
    → All P (modify i f xs)
All-modify P i f [] g a = tt
All-modify P zero f (x ∷ xs) g (p, a) = (g x p, a)
All-modify P (suc i) f (x ∷ xs) g (p, a) = (p, All-modify P i f xs g a)

pub length-modify {ℓ} :
    {A : Type ℓ} (i : ℕ) (f : A → A) (xs : List A) → length (modify i f xs) ≡ length xs
length-modify i f [] = refl
length-modify zero f (x ∷ xs) = refl
length-modify (suc i) f (x ∷ xs) = ap suc (length-modify i f xs)

module _ (n : Net) where
  pub record IsOrdered (t : Tunnel n) : Type 0 where
    pub traced : All (IsTraced t.builder.lwip.emitted) t.tuns
    pub current : (i : ℕ) → t.memory_tun ≡ some i → i < length t.tuns

  -- The tunnels, the current one and what lwIP has emitted are those of before.
  pub record IsKept (t t' : Tunnel n) : Type 0 where
    pub tuns : t'.tuns ≡ t.tuns
    pub memory_tun : t'.memory_tun ≡ t.memory_tun
    pub emitted : t'.builder.lwip.emitted ≡ t.builder.lwip.emitted

  pub kept-IsOrdered : (t t' : Tunnel n) → IsKept t t' → IsOrdered t → IsOrdered t'
  kept-IsOrdered t t' k v = record {
    traced = rw (k.tuns, k.emitted) v.traced;
    current = λ i e. ground (arith, v.current i (sym k.memory_tun ∙ e), k.tuns);
  }

  -- One tunnel is changed in a way that keeps it traced.
  pub modified-IsOrdered :
      (i : ℕ) (f : MemoryTun → MemoryTun) (t : Tunnel n)
      → ((m : MemoryTun)
          → IsTraced t.builder.lwip.emitted m
          → IsTraced t.builder.lwip.emitted (f m))
      → IsOrdered t
      → IsOrdered (modify_tun n i f t)
  modified-IsOrdered i f t g v = record {
    traced = All-modify _ i f t.tuns g v.traced;
    current = λ j e. omega (arith, v.current j e, length-modify i f t.tuns);
  }

  notify_tun_ready-IsOrdered : (t : Tunnel n) → IsOrdered t → IsOrdered (notify_tun_ready n t)
  unfolding notify_tun_ready
  notify_tun_ready-IsOrdered t v =
      kept-IsOrdered t (notify_tun_ready n t)
        (record { tuns = ground arith; memory_tun = ground arith; emitted = ground arith }) v

  pub notify_tun_down-IsOrdered : (t : Tunnel n) → IsOrdered t → IsOrdered (notify_tun_down n t)
  unfolding notify_tun_down
  notify_tun_down-IsOrdered t v =
      kept-IsOrdered t (notify_tun_down n t)
        (record { tuns = ground arith; memory_tun = ground arith; emitted = ground arith }) v

  establish-emitted : (b : Builder n) → (tun_builder_establish n b).0.lwip.emitted ≡ b.lwip.emitted
  unfolding tun_builder_establish apply_tun_config_and_output apply_tun_config
  establish-emitted b = ground arith

  on_established-IsOrdered :
      (i : ℕ) (answer : ℤ) (t : Tunnel n) → IsOrdered t → IsOrdered (on_established n i answer t)
  unfolding on_established
  on_established-IsOrdered i (pos zero) t v =
      notify_tun_ready-IsOrdered _ (modified-IsOrdered i connect t (connect-IsTraced _) v)
  on_established-IsOrdered i (pos (suc k)) t v =
      modified-IsOrdered i (tell tun_iface_create) t (tell-IsTraced tun_iface_create _) v
  on_established-IsOrdered i (negsuc k) t v =
      modified-IsOrdered i (tell tun_iface_create) t (tell-IsTraced tun_iface_create _) v

  pub tun_start-IsOrdered :
      (i : ℕ) (cs : List (TunCall n)) (throws : Bool) (t : Tunnel n)
      → IsOrdered t
      → IsOrdered (tun_start n i cs throws t)
  unfolding tun_start
  tun_start-IsOrdered i cs throws t v =
      let b = tun_calls n cs (tun_builder_new n t.builder) in
      let b' = (tun_builder_establish n b).0 in
      let same =
        ap (λ (x : Runtime.State.Runtime n). x.emitted) (tun_calls-told n cs t.builder).0 in
      elim (Bool-cases throws) [
        | inl e ↦
            rw (e, tun_start)
              (modified-IsOrdered i (tell tun_setup_failed) (record t { builder = b })
                (tell-IsTraced tun_setup_failed _)
                (kept-IsOrdered t (record t { builder = b })
                  (record { tuns = refl; memory_tun = refl; emitted = same }) v))
        | inr e ↦
            rw (e, tun_start)
              (on_established-IsOrdered i (tun_builder_establish n b).1 (record t { builder = b' })
                (kept-IsOrdered t (record t { builder = b' })
                  (record { tuns = refl; memory_tun = refl; emitted = establish-emitted b ∙ same })
                  v))
      ]

  pub made-IsOrdered : (t : Tunnel n) → IsOrdered t → IsOrdered (new_tun_client_obj n t)
  unfolding new_tun_client_obj
  made-IsOrdered t v = record {
    traced = All-append_one _ t.tuns new_tun v.traced (new_tun-IsTraced _);
    current = λ i e. ground (arith, length-append t.tuns (new_tun ∷ []));
  }
