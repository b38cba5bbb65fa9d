-- ===== src/OpenVpn/Lines.antt =====
-- The lines of a configuration file, as the scan of src/OpenVpnClient.cpp can tell them apart, and
-- what the parts of its regular expression make of them.
use ovpn2ss.Common.{
  ℕ, ◌≡◌, ◌≢◌, ◌⊎◌, inl, inr, refl, ◌∙◌, true, false, some, Bytes, List, [], ◌∷◌, ◌++◌, ◌==◌, map,
  is_empty, codes, All, arith, Bool-cases,
}
use ovpn2ss.OpenVpn.Scan.{
  is_space, is_line_terminator, drop_spaces, word, drop_word, lower, strip, starts_with_space,
  match_group,
}

-- A line that names a cipher: white space, the option, a gap, the name, what follows it, and the
-- character that ends the line; or a line with another option.
pub data Line : Type 0 where
  cipher_line : Bytes → Bytes → Bytes → Bytes → Bytes → ℕ → Line
  other_line : Bytes → Bytes → Bytes → ℕ → Line

abbrev pub IsWord : Bytes → Type 0
IsWord name = (is_empty name ≡ false) × All (λ c. is_space c ≡ false) name

-- Spaces, tabs and empty lines.
abbrev pub IsIndent : Bytes → Type 0
IsIndent = All (λ c. is_space c ≡ true)

abbrev pub IsGap : Bytes → Type 0
IsGap gap = (is_empty gap ≡ false) × All (λ c. (c ≡ 32) ⊎ (c ≡ 9)) gap

-- What stands behind a word up to the end of its line.
abbrev pub IsTail : Bytes → ℕ → Type 0
IsTail tail end =
    (starts_with_space (tail ++ end ∷ []) ≡ true)
    × All (λ c. is_line_terminator c ≡ false) tail
    × (is_line_terminator end ≡ true)

abbrev pub IsCipherOption : Bytes → Type 0
IsCipherOption option =
    (map lower option ≡ codes "cipher") ⊎ (map lower option ≡ codes "data-cipher")

abbrev pub IsLine : Line → Type 0
IsLine (cipher_line indent option gap name tail end) =
    IsIndent indent × IsCipherOption option × IsGap gap × IsWord name × IsTail tail end
IsLine (other_line indent option tail end) =
    IsIndent indent
    × IsWord option
    × (map lower option ≢ codes "cipher")
    × (map lower option ≢ codes "data-cipher")
    × IsTail tail end

-- The text of the lines, with `rest` behind it.
abbrev pub file_text : Bytes → List Line → Bytes
file_text rest [] = rest
file_text rest (cipher_line indent option gap name tail end ∷ ls) =
    indent ++ (option ++ (gap ++ (name ++ (tail ++ end ∷ file_text rest ls))))
file_text rest (other_line indent option tail end ∷ ls) =
    indent ++ (option ++ (tail ++ end ∷ file_text rest ls))

abbrev pub named : List Line → List Bytes
named [] = []
named (cipher_line indent option gap name tail end ∷ ls) = name ∷ named ls
named (other_line indent option tail end ∷ ls) = named ls

pub tail_starts :
    (tail rest : Bytes) (end : ℕ)
    → starts_with_space (tail ++ end ∷ []) ≡ true
    → starts_with_space (tail ++ end ∷ rest) ≡ true
tail_starts [] rest end h = h
tail_starts (c ∷ cs) rest end h = h

pub word-append :
    (name t : Bytes)
    → All (λ c. is_space c ≡ false) name
    → starts_with_space t ≡ true
    → word (name ++ t) ≡ name
word-append [] [] a h = refl
word-append [] (x ∷ t) a h = rw h refl
word-append (c ∷ cs) t (a, more) h = rw (a, word-append cs t more h) refl

pub drop_word-append :
    (name t : Bytes)
    → All (λ c. is_space c ≡ false) name
    → starts_with_space t ≡ true
    → drop_word (name ++ t) ≡ t
drop_word-append [] [] a h = refl
drop_word-append [] (x ∷ t) a h = rw h refl
drop_word-append (c ∷ cs) t (a, more) h = rw (a, drop_word-append cs t more h) refl

pub drop_spaces-word : (name t : Bytes) → IsWord name → drop_spaces (name ++ t) ≡ name ++ t
drop_spaces-word [] t (e, a) = absurd (ground arith)
drop_spaces-word (c ∷ cs) t (e, (a, more)) = rw a refl

pub drop_spaces-append : (s t : Bytes) → IsIndent s → drop_spaces (s ++ t) ≡ drop_spaces t
drop_spaces-append [] t a = refl
drop_spaces-append (c ∷ cs) t (a, more) = rw (a, drop_spaces-append cs t more) refl

gap-IsIndent : (gap : Bytes) → All (λ c. (c ≡ 32) ⊎ (c ≡ 9)) gap → IsIndent gap
gap-IsIndent [] a = tt
gap-IsIndent (c ∷ cs) (a, more) = (ground arith, gap-IsIndent cs more)

gap_starts : (gap t : Bytes) → IsGap gap → starts_with_space (gap ++ t) ≡ true
gap_starts [] t (e, a) = absurd (ground arith)
gap_starts (c ∷ cs) t (e, (a, more)) = ground arith

pub match_group-word :
    (gap name t : Bytes)
    → IsGap gap
    → IsWord name
    → starts_with_space t ≡ true
    → match_group (some (gap ++ (name ++ t))) ≡ some (name, t)
match_group-word gap name t g n h =
    let start = gap_starts gap (name ++ t) g in
    let drop =
      drop_spaces-append gap (name ++ t) (gap-IsIndent gap g.1) ∙ drop_spaces-word name t n in
    let w = word-append name t n.1 h in
    let d = drop_word-append name t n.1 h in rw (start, drop, w, d, n.0) refl

pub strip-append : (a b t r : Bytes) → strip a t ≡ some r → strip (a ++ b) t ≡ strip b r
strip-append [] b t r e = ground arith
strip-append (x ∷ xs) b [] r e = ground arith
strip-append (x ∷ xs) b (c ∷ cs) r e = elim (Bool-cases (lower c == x)) [
  | inl f ↦ rw f (strip-append xs b cs r (rw f at e))
  | inr f ↦ ground arith
]

pub strip_option : (option t : Bytes) → strip (map lower option) (option ++ t) ≡ some t
strip_option [] t = refl
strip_option (c ∷ cs) t = ground (arith, strip_option cs t)
