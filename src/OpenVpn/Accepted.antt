-- ===== src/OpenVpn/Accepted.antt =====
-- Which names of ciphers the scan of src/OpenVpnClient.cpp accepts.
use ovpn2ss.Common.{
  ◌≡◌, ◌≢◌, ◌⊎◌, ◌↔◌, inl, inr, refl, sym, ◌∙◌, ap, Bool, true, false, ◌||◌, Bytes, List, [], ◌∷◌,
  ◌==◌, codes, All, arith, same, same_sound, same_self, Bool-cases,
}
use ovpn2ss.OpenVpn.Scan.{is_space, erase_cr, is_accepted, any_refused}

-- The names for no cipher and for the AEAD ciphers of OpenVPN.
abbrev pub IsAead : Bytes → Type 0
IsAead name =
    ((((name ≡ codes "none") ⊎ (name ≡ codes "AES-128-GCM")) ⊎ (name ≡ codes "AES-192-GCM"))
      ⊎ (name ≡ codes "AES-256-GCM"))
    ⊎ (name ≡ codes "CHACHA20-POLY1305")

erase_cr-IsWord : (name : Bytes) → All (λ c. is_space c ≡ false) name → erase_cr name ≡ name
erase_cr-IsWord [] a = refl
erase_cr-IsWord (c ∷ cs) (a, more) =
    let kept : (c == 13) ≡ false = ground arith in rw kept (ap (◌∷◌ c) (erase_cr-IsWord cs more))

true-false : true ≢ false
true-false e = ground arith

same_iff : (xs ys : Bytes) → (same xs ys ≡ true) ↔ (xs ≡ ys)
same_iff xs ys = (same_sound xs ys, λ e. rw e (same_self ys))

or_iff {ℓ κ} :
    {A : Type ℓ} {B : Type κ} (a b : Bool)
    → ((a ≡ true) ↔ A)
    → ((b ≡ true) ↔ B)
    → (((a || b) ≡ true) ↔ (A ⊎ B))
or_iff true true f g = (λ e. inl (f.0 refl), λ s. refl)
or_iff true false f g = (λ e. inl (f.0 refl), λ s. refl)
or_iff false true f g = (λ e. inr (g.0 refl), λ s. refl)
or_iff false false f g =
    (λ e. absurd (true-false (sym e)), λ s. elim s [ inl x ↦ f.1 x | inr y ↦ g.1 y ])

is_accepted-IsAead : (name : Bytes) → (is_accepted name ≡ true) ↔ IsAead name
is_accepted-IsAead name =
    or_iff _ _
      (or_iff _ _
        (or_iff _ _
          (or_iff _ _ (same_iff name (codes "none")) (same_iff name (codes "AES-128-GCM")))
          (same_iff name (codes "AES-192-GCM")))
        (same_iff name (codes "AES-256-GCM")))
      (same_iff name (codes "CHACHA20-POLY1305"))

pub any_refused-IsAead :
    (names : List Bytes)
    → All (λ name. All (λ c. is_space c ≡ false) name) names
    → (any_refused names ≡ false) ↔ All IsAead names
any_refused-IsAead [] a = (λ e. tt, λ u. refl)
any_refused-IsAead (c ∷ cs) (a, more) =
    let kept = erase_cr-IsWord c a in
    let more_iff = any_refused-IsAead cs more in
    elim (Bool-cases (is_accepted (erase_cr c))) [
      | inl e ↦ (
        λ f. ((is_accepted-IsAead c).0 (ap is_accepted (sym kept) ∙ e), more_iff.0 (rw e at f)),
        λ s. rw e (more_iff.1 s.1),
      )
      | inr e ↦ (
        λ f. absurd (ground arith),
        λ s. absurd (true-false (sym (ap is_accepted kept ∙ (is_accepted-IsAead c).1 s.0) ∙ e)),
      )
    ]
