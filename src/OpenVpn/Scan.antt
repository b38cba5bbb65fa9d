-- ===== src/OpenVpn/Scan.antt =====
-- scan_ovpn_for_non_aead_cipher of src/OpenVpnClient.cpp, with the matches of its regular expression
-- `^\s*(?:data-)?cipher\s+(\S+)` without regard to case, where `^` is the begin of any line.
use ovpn2ss.Common.{
  ℕ, zero, suc, ◌+◌, ◌-◌, Bool, true, false, not, ◌&&◌, ◌||◌, Option, none, some, Bytes, List, [],
  ◌∷◌, leb, ◌==◌, if◌then◌else◌, is_empty, length, codes, same,
}

abbrev pub is_space : ℕ → Bool
is_space c = c == 32 || (leb 9 c && leb c 13)

abbrev pub is_line_terminator : ℕ → Bool
is_line_terminator c = c == 10 || c == 13

abbrev pub lower : ℕ → ℕ
lower c = if leb 65 c && leb c 90 then c + 32 else c

-- `\s*` and `\S*`.
abbrev pub drop_spaces : Bytes → Bytes
drop_spaces [] = []
drop_spaces (c ∷ cs) = let rest = drop_spaces cs in if is_space c then rest else c ∷ cs

abbrev pub word : Bytes → Bytes
word [] = []
word (c ∷ cs) = let rest = word cs in if is_space c then [] else c ∷ rest

abbrev pub drop_word : Bytes → Bytes
drop_word [] = []
drop_word (c ∷ cs) = let rest = drop_word cs in if is_space c then c ∷ cs else rest

-- The text behind `part`, which is in lower case.
abbrev pub strip : Bytes → Bytes → Option Bytes
strip [] text = some text
strip (x ∷ xs) [] = none
strip (x ∷ xs) (c ∷ cs) = let rest = strip xs cs in if lower c == x then rest else none

abbrev pub or_else : Bytes → Option Bytes → Bytes
or_else text none = text
or_else text (some rest) = rest

abbrev pub starts_with_space : Bytes → Bool
starts_with_space [] = false
starts_with_space (c ∷ cs) = is_space c

-- What `\s+(\S+)` makes of the text behind the name of the option.
abbrev pub match_group : Option Bytes → Option (Bytes × Bytes)
match_group none = none
match_group (some rest) =
    if starts_with_space rest && not (is_empty (word (drop_spaces rest)))
    then some (word (drop_spaces rest), drop_word (drop_spaces rest))
    else none

abbrev pub match_option : Bytes → Option Bytes
match_option front = strip (codes "cipher") (or_else front (strip (codes "data-") front))

-- A match that begins here: its group, and the text behind it.
unfoldable pub match_cipher : Bytes → Option (Bytes × Bytes)
match_cipher text = match_group (match_option (drop_spaces text))

-- The groups of all matches, in order; `skip` is how much of the last match is still ahead.
unfoldable pub matches : ℕ → Bool → Bytes → List Bytes
unfolding match_cipher
matches skip at_start [] = []
matches (suc skip) at_start (c ∷ cs) = matches skip (is_line_terminator c) cs
matches zero at_start (c ∷ cs) = elim (if at_start then match_cipher (c ∷ cs) else none) [
  | none ↦ matches zero (is_line_terminator c) cs
  | some (cipher, rest) ↦ cipher ∷ matches (length cs - length rest) (is_line_terminator c) cs
]

abbrev pub erase_cr : Bytes → Bytes
erase_cr [] = []
erase_cr (c ∷ cs) = if c == 13 then erase_cr cs else c ∷ erase_cr cs

abbrev pub is_accepted : Bytes → Bool
is_accepted cipher =
    same cipher (codes "none")
    || same cipher (codes "AES-128-GCM")
    || same cipher (codes "AES-192-GCM")
    || same cipher (codes "AES-256-GCM")
    || same cipher (codes "CHACHA20-POLY1305")

abbrev pub any_refused : List Bytes → Bool
any_refused [] = false
any_refused (c ∷ cs) = not (is_accepted (erase_cr c)) || any_refused cs

unfoldable pub scan_ovpn_for_non_aead_cipher : Bytes → Bool
unfolding matches
scan_ovpn_for_non_aead_cipher content = any_refused (matches 0 true content)
