-- ===== src/OpenVpn/LineMatch.antt =====
-- Which lines the regular expression of the scan of src/OpenVpnClient.cpp matches, and with what
-- name.
use ovpn2ss.Common.{
  ℕ, ◌<◌, ◌≡◌, ◌≢◌, ◌⊎◌, inl, inr, refl, sym, ◌∙◌, ap, true, false, none, some, Bytes, [], ◌∷◌,
  ◌++◌, ◌==◌, map, is_empty, codes, All, arith, Bool-cases, Option-cases,
}
use ovpn2ss.OpenVpn.Scan.{
  is_space, lower, strip, or_else, match_option, starts_with_space, match_group, match_cipher,
}
use ovpn2ss.OpenVpn.Lines.{
  IsWord, IsIndent, IsGap, IsCipherOption, drop_spaces-word, drop_spaces-append, match_group-word,
  strip-append, strip_option,
}

-- The text is the keyword, up to the case of its letters, if the keyword and a space begin it.
strip_word :
    (kw option t r : Bytes)
    → All (λ x. 32 < x) kw
    → All (λ c. is_space c ≡ false) option
    → starts_with_space t ≡ true
    → strip kw (option ++ t) ≡ some r
    → starts_with_space r ≡ true
    → map lower option ≡ kw
strip_word [] [] t r k a h e f = refl
strip_word [] (c ∷ cs) t r k (a, more) h e f = absurd (ground arith)
strip_word (x ∷ xs) [] [] r k a h e f = absurd (ground arith)
strip_word (x ∷ xs) [] (s ∷ t) r (k, ks) a h e f = elim (Bool-cases (lower s == x)) [
  | inl g ↦ absurd (ground arith)
  | inr g ↦ absurd (ground arith)
]
strip_word (x ∷ xs) (c ∷ cs) t r (k, ks) (a, more) h e f = elim (Bool-cases (lower c == x)) [
  | inl g ↦
      let rest = strip_word xs cs t r ks more h (rw g at e) f in
      let first : lower c ≡ x = ground arith in rw (first, rest) refl
  | inr g ↦ absurd (ground arith)
]

abbrev data_front : Bytes
data_front = codes "data-"

-- `(?:data-)?cipher` is either of two words.
match_option-strip :
    (t : Bytes)
    → (match_option t ≡ strip (codes "cipher") t) ⊎ (match_option t ≡ strip (codes "data-cipher") t)
match_option-strip t = elim (Option-cases (strip data_front t)) [
  | inl e ↦ inl (ap (λ o. strip (codes "cipher") (or_else t o)) e)
  | inr (r, e) ↦ inr (
      ap (λ o. strip (codes "cipher") (or_else t o)) e
      ∙ sym (strip-append data_front (codes "cipher") t r e))
]

cipher_high : All (λ x. 32 < x) (codes "cipher")
cipher_high = ground arith

data_cipher_high : All (λ x. 32 < x) (codes "data-cipher")
data_cipher_high = ground arith

match_group_other :
    (kw option t : Bytes)
    → All (λ x. 32 < x) kw
    → IsWord option
    → starts_with_space t ≡ true
    → map lower option ≢ kw
    → match_group (strip kw (option ++ t)) ≡ none
match_group_other kw option t k o h n = elim (Option-cases (strip kw (option ++ t))) [
  | inl e ↦ ap match_group e
  | inr (r, e) ↦ elim (Bool-cases (starts_with_space r)) [
    | inl f ↦ absurd (n (strip_word kw option t r k o.1 h e f))
    | inr f ↦ ap match_group e ∙ rw f refl
  ]
]

pub match_cipher_other :
    (indent option t : Bytes)
    → IsIndent indent
    → IsWord option
    → starts_with_space t ≡ true
    → map lower option ≢ codes "cipher"
    → map lower option ≢ codes "data-cipher"
    → match_cipher (indent ++ (option ++ t)) ≡ none
unfolding match_cipher
match_cipher_other indent option t i o h n m =
    let front = drop_spaces-append indent (option ++ t) i ∙ drop_spaces-word option t o in
    ap (λ x. match_group (match_option x)) front ∙ elim (match_option-strip (option ++ t)) [
      | inl e ↦ ap match_group e ∙ match_group_other (codes "cipher") option t cipher_high o h n
      | inr e ↦
          ap match_group e ∙ match_group_other (codes "data-cipher") option t data_cipher_high o h m
    ]

lower_head : (c : ℕ) (cs : Bytes) → map lower (c ∷ cs) ≡ codes "cipher" → (lower c == 100) ≡ false
lower_head c cs e = let head : lower c ≡ 99 = ground arith in rw head refl

not_data :
    (option t : Bytes) → map lower option ≡ codes "cipher" → strip data_front (option ++ t) ≡ none
not_data [] t e = absurd (ground arith)
not_data (c ∷ cs) t e = rw (lower_head c cs e) refl

strip-append_none : (a b t : Bytes) → strip a t ≡ none → strip (a ++ b) t ≡ none
strip-append_none [] b t e = absurd (ground arith)
strip-append_none (x ∷ xs) b [] e = refl
strip-append_none (x ∷ xs) b (c ∷ cs) e = elim (Bool-cases (lower c == x)) [
  | inl f ↦ rw f (strip-append_none xs b cs (rw f at e))
  | inr f ↦ rw f refl
]

none-some : {t : Bytes} → none ≢ some t
none-some e = ground arith

lower_word :
    (kw option : Bytes)
    → All (λ x. 32 < x) kw
    → map lower option ≡ kw
    → All (λ c. is_space c ≡ false) option
lower_word kw [] k e = tt
lower_word [] (c ∷ cs) k e = absurd (ground arith)
lower_word (x ∷ xs) (c ∷ cs) (k, ks) e =
    let head : lower c ≡ x = ground arith in
    let tail : map lower cs ≡ xs = ground arith in (ground arith, lower_word xs cs ks tail)

not_empty :
    (option : Bytes) (x : ℕ) (xs : Bytes) → map lower option ≡ x ∷ xs → is_empty option ≡ false
not_empty [] x xs e = absurd (ground arith)
not_empty (c ∷ cs) x xs e = refl

pub option-IsWord : (option : Bytes) → IsCipherOption option → IsWord option
option-IsWord option (inl e) =
    (not_empty option _ _ e, lower_word (codes "cipher") option cipher_high e)
option-IsWord option (inr e) =
    (not_empty option _ _ e, lower_word (codes "data-cipher") option data_cipher_high e)

match_option-cipher :
    (option t : Bytes) → IsCipherOption option → match_option (option ++ t) ≡ some t
match_option-cipher option t (inl e) =
    ap (λ o. strip (codes "cipher") (or_else (option ++ t) o)) (not_data option t e)
    ∙ (ap (λ k. strip k (option ++ t)) (sym e) ∙ strip_option option t)
match_option-cipher option t (inr e) =
    let found = ap (λ k. strip k (option ++ t)) (sym e) ∙ strip_option option t in
    elim (Option-cases (strip data_front (option ++ t))) [
      | inl f ↦
          absurd (
            none-some (sym (strip-append_none data_front (codes "cipher") (option ++ t) f) ∙ found))
      | inr (r, f) ↦
          ap (λ o. strip (codes "cipher") (or_else (option ++ t) o)) f
          ∙ (sym (strip-append data_front (codes "cipher") (option ++ t) r f) ∙ found)
    ]

pub match_cipher_found :
    (indent option gap name t : Bytes)
    → IsIndent indent
    → IsCipherOption option
    → IsGap gap
    → IsWord name
    → starts_with_space t ≡ true
    → match_cipher (indent ++ (option ++ (gap ++ (name ++ t)))) ≡ some (name, t)
unfolding match_cipher
match_cipher_found indent option gap name t i o g n h =
    let rest = gap ++ (name ++ t) in
    let front =
      drop_spaces-append indent (option ++ rest) i
      ∙ drop_spaces-word option rest (option-IsWord option o) in
    ap (λ x. match_group (match_option x)) front
    ∙ (ap match_group (match_option-cipher option rest o) ∙ match_group-word gap name t g n h)
