-- ===== src/Common/Sublist.antt =====
-- Lists that come from others by leaving out members.
use mathlib.Core.Path.{◌≡◌, refl}
use mathlib.Core.Logic.{◌⊎◌, inl, inr}
use native.Mathlib.Omega.{arith}
use mathlib.Core.List.{List, [], ◌∷◌, ◌++◌}

module _ {ℓ} {A : Type ℓ} where
  abbrev pub IsSublist : List A → List A → Type ℓ
  IsSublist [] ys = Unit
  IsSublist (x ∷ xs) [] = x ∷ xs ≡ []
  IsSublist (x ∷ xs) (y ∷ ys) = ((x ≡ y) × IsSublist xs ys) ⊎ IsSublist (x ∷ xs) ys

  -- A last member is added to the longer list, or to both.
  pub IsSublist-skip : (xs ys : List A) (z : A) → IsSublist xs ys → IsSublist xs (ys ++ z ∷ [])
  IsSublist-skip [] ys z h = tt
  IsSublist-skip (x ∷ xs) [] z h = absurd (ground arith)
  IsSublist-skip (x ∷ xs) (y ∷ ys) z (inl (e, h)) = inl (e, IsSublist-skip xs ys z h)
  IsSublist-skip (x ∷ xs) (y ∷ ys) z (inr h) = inr (IsSublist-skip (x ∷ xs) ys z h)

  pub IsSublist-keep :
      (xs ys : List A) (z : A) → IsSublist xs ys → IsSublist (xs ++ z ∷ []) (ys ++ z ∷ [])
  IsSublist-keep [] [] z h = inl (refl, tt)
  IsSublist-keep [] (y ∷ ys) z h = inr (IsSublist-keep [] ys z tt)
  IsSublist-keep (x ∷ xs) [] z h = absurd (ground arith)
  IsSublist-keep (x ∷ xs) (y ∷ ys) z (inl (e, h)) = inl (e, IsSublist-keep xs ys z h)
  IsSublist-keep (x ∷ xs) (y ∷ ys) z (inr h) = inr (IsSublist-keep (x ∷ xs) ys z h)

  IsSublist-tail : (x : A) (xs ys : List A) → IsSublist (x ∷ xs) ys → IsSublist xs ys
  IsSublist-tail x [] ys h = tt
  IsSublist-tail x (x' ∷ xs) [] h = absurd (ground arith)
  IsSublist-tail x (x' ∷ xs) (y ∷ ys) (inl (e, h)) = inr h
  IsSublist-tail x (x' ∷ xs) (y ∷ ys) (inr h) = inr (IsSublist-tail x (x' ∷ xs) ys h)

  -- A member of the shorter list is left out.
  pub IsSublist-drop :
      (xs : List A) (x : A) (zs ys : List A) → IsSublist (xs ++ x ∷ zs) ys → IsSublist (xs ++ zs) ys
  IsSublist-drop [] x zs ys h = IsSublist-tail x zs ys h
  IsSublist-drop (w ∷ xs) x zs [] h = absurd (ground arith)
  IsSublist-drop (w ∷ xs) x zs (y ∷ ys) (inl (e, h)) = inl (e, IsSublist-drop xs x zs ys h)
  IsSublist-drop (w ∷ xs) x zs (y ∷ ys) (inr h) = inr (IsSublist-drop (w ∷ xs) x zs ys h)
