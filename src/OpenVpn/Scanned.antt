-- ===== src/OpenVpn/Scanned.antt =====
-- What the scan of src/OpenVpnClient.cpp finds in a file that is written line by line.
use ovpn2ss.Common.{
  ℕ, ◌-◌, ◌≡◌, ◌↔◌, refl, sym, ◌∙◌, ap, Bool, true, false, none, some, Bytes, List, [], ◌∷◌, ◌++◌,
  is_empty, length, All, arith, append_assoc, length-append,
}
use ovpn2ss.OpenVpn.Scan.{
  is_space, is_line_terminator, drop_spaces, match_option, match_group, match_cipher, matches,
  scan_ovpn_for_non_aead_cipher,
}
use ovpn2ss.OpenVpn.Lines.{
  Line, cipher_line, other_line, IsWord, IsIndent, IsLine, file_text, named, tail_starts,
}
use ovpn2ss.OpenVpn.Accepted.{IsAead, any_refused-IsAead}
use ovpn2ss.OpenVpn.LineMatch.{option-IsWord, match_cipher_other, match_cipher_found}

space_within : (c : ℕ) → is_space c ≡ false → is_line_terminator c ≡ false
space_within c h = ground arith

matches_name :
    (name t : Bytes) (b : Bool)
    → IsWord name
    → matches (length name) b (name ++ t) ≡ matches 0 false t
unfolding matches
matches_name [] t b (e, a) = absurd (ground arith)
matches_name (c ∷ []) t b (e, (a, more)) = rw (space_within c a) refl
matches_name (c ∷ (d ∷ name)) t b (e, (a, more)) =
    matches_name (d ∷ name) t (is_line_terminator c) (refl, more)

-- A match is stepped over; it ends within a line, since it ends in a name.
matches_skip :
    (front name t : Bytes) (b : Bool)
    → IsWord name
    → matches (length (front ++ name)) b (front ++ (name ++ t)) ≡ matches 0 false t
unfolding matches
matches_skip [] name t b n = matches_name name t b n
matches_skip (c ∷ cs) name t b n = matches_skip cs name t (is_line_terminator c) n

-- The rest of a line is stepped over.
matches_tail :
    (tail t : Bytes) (end : ℕ)
    → All (λ c. is_line_terminator c ≡ false) tail
    → is_line_terminator end ≡ true
    → matches 0 false (tail ++ end ∷ t) ≡ matches 0 true t
unfolding matches
matches_tail [] t end a h = rw h refl
matches_tail (c ∷ cs) t end (a, more) h = rw a (matches_tail cs t end more h)

matches_found :
    (c : ℕ) (cs w t : Bytes)
    → match_cipher (c ∷ cs) ≡ some (w, t)
    → matches 0 true (c ∷ cs) ≡ w ∷ matches (length cs - length t) (is_line_terminator c) cs
unfolding matches
matches_found c cs w t h = rw (h, matches) refl

matches_missed :
    (c : ℕ) (cs : Bytes) (b : Bool)
    → match_cipher (c ∷ cs) ≡ none
    → matches 0 b (c ∷ cs) ≡ matches 0 (is_line_terminator c) cs
unfolding matches
matches_missed c cs true h = rw (h, matches) refl
matches_missed c cs false h = refl

-- A match at the start of a line, and what is left behind it.
matches_front :
    (front name t : Bytes)
    → is_empty front ≡ false
    → IsWord name
    → match_cipher (front ++ (name ++ t)) ≡ some (name, t)
    → matches 0 true (front ++ (name ++ t)) ≡ name ∷ matches 0 false t
matches_front [] name t e n h = absurd (ground arith)
matches_front (c ∷ cs) name t e n h =
    let size : length (cs ++ (name ++ t)) - length t ≡ length (cs ++ name) =
      omega (arith, length-append cs (name ++ t), length-append name t, length-append cs name) in
    matches_found c (cs ++ (name ++ t)) name t h
    ∙ ap (λ k. name ∷ matches k (is_line_terminator c) (cs ++ (name ++ t))) size
    ∙ ap (◌∷◌ name) (matches_skip cs name t (is_line_terminator c) n)

matches_within :
    (w t : Bytes) → All (λ c. is_space c ≡ false) w → matches 0 false (w ++ t) ≡ matches 0 false t
unfolding matches
matches_within [] t a = refl
matches_within (c ∷ cs) t (a, more) = rw (space_within c a) (matches_within cs t more)

-- At no place of the white space before another option is there a match, nor at the option.
matches_option :
    (indent option t : Bytes) (b : Bool)
    → IsIndent indent
    → IsWord option
    → ((i : Bytes) → IsIndent i → match_cipher (i ++ (option ++ t)) ≡ none)
    → matches 0 b (indent ++ (option ++ t)) ≡ matches 0 false t
unfolding matches
matches_option (c ∷ cs) option t b (a, i) o miss =
    matches_missed c (cs ++ (option ++ t)) b (miss (c ∷ cs) (a, i))
    ∙ matches_option cs option t (is_line_terminator c) i o miss
matches_option [] [] t b i (e, a) miss = absurd (ground arith)
matches_option [] (c ∷ cs) t b i (e, (a, more)) miss =
    matches_missed c (cs ++ t) b (miss [] tt)
    ∙ (ap (λ x. matches 0 x (cs ++ t)) (space_within c a) ∙ matches_within cs t more)

front_assoc :
    (indent option gap t : Bytes)
    → (indent ++ (option ++ gap)) ++ t ≡ indent ++ (option ++ (gap ++ t))
front_assoc indent option gap t =
    append_assoc indent (option ++ gap) t ∙ ap (◌++◌ indent) (append_assoc option gap t)

front_not_empty :
    (indent option gap : Bytes) → IsWord option → is_empty (indent ++ (option ++ gap)) ≡ false
front_not_empty [] [] gap (e, a) = absurd (ground arith)
front_not_empty [] (c ∷ cs) gap o = refl
front_not_empty (c ∷ cs) option gap o = refl

matches_cipher_line :
    (indent option gap name tail t : Bytes) (end : ℕ)
    → IsLine (cipher_line indent option gap name tail end)
    → matches 0 true (indent ++ (option ++ (gap ++ (name ++ (tail ++ end ∷ t)))))
      ≡ name ∷ matches 0 true t
matches_cipher_line indent option gap name tail t end (i, o, g, n, (h, a, z)) =
    let behind = tail ++ end ∷ t in
    let same_text = front_assoc indent option gap (name ++ behind) in
    let found =
      match_cipher_found indent option gap name behind i o g n (tail_starts tail t end h) in
    ap (matches 0 true) (sym same_text)
    ∙ matches_front (indent ++ (option ++ gap)) name behind
        (front_not_empty indent option gap (option-IsWord option o)) n
        (ap match_cipher same_text ∙ found)
    ∙ ap (◌∷◌ name) (matches_tail tail t end a z)

matches_other_line :
    (indent option tail t : Bytes) (end : ℕ)
    → IsLine (other_line indent option tail end)
    → matches 0 true (indent ++ (option ++ (tail ++ end ∷ t))) ≡ matches 0 true t
matches_other_line indent option tail t end (i, o, x, y, (h, a, z)) =
    let behind = tail ++ end ∷ t in
    matches_option indent option behind true i o
      (λ s q. match_cipher_other s option behind q o (tail_starts tail t end h) x y)
    ∙ matches_tail tail t end a z

drop_spaces_all : (rest : Bytes) → IsIndent rest → drop_spaces rest ≡ []
drop_spaces_all [] i = refl
drop_spaces_all (c ∷ cs) (a, i) = rw a (drop_spaces_all cs i)

matches_blank : (rest : Bytes) (b : Bool) → IsIndent rest → matches 0 b rest ≡ []
unfolding matches match_cipher
matches_blank [] b i = refl
matches_blank (c ∷ cs) b i =
    matches_missed c cs b (ap (λ x. match_group (match_option x)) (drop_spaces_all (c ∷ cs) i))
    ∙ matches_blank cs (is_line_terminator c) i.1

matches-file_text :
    (ls : List Line) (rest : Bytes)
    → All IsLine ls
    → IsIndent rest
    → matches 0 true (file_text rest ls) ≡ named ls
matches-file_text [] rest a i = matches_blank rest true i
matches-file_text (cipher_line indent option gap name tail end ∷ ls) rest (a, more) i =
    matches_cipher_line indent option gap name tail (file_text rest ls) end a
    ∙ ap (◌∷◌ name) (matches-file_text ls rest more i)
matches-file_text (other_line indent option tail end ∷ ls) rest (a, more) i =
    matches_other_line indent option tail (file_text rest ls) end a
    ∙ matches-file_text ls rest more i

named-IsWord :
    (ls : List Line) → All IsLine ls → All (λ name. All (λ c. is_space c ≡ false) name) (named ls)
named-IsWord [] a = tt
named-IsWord (cipher_line indent option gap name tail end ∷ ls) ((i, o, g, n, z), more) =
    (n.1, named-IsWord ls more)
named-IsWord (other_line indent option tail end ∷ ls) (a, more) = named-IsWord ls more

-- For a file of any lines of the two kinds below, with white space behind the last:
-- scan_ovpn_for_non_aead_cipher answers false exactly if each cipher that a line names is, letter
-- for letter, none, AES-128-GCM, AES-192-GCM, AES-256-GCM or CHACHA20-POLY1305. A line is white
-- space (empty lines included), a word, a rest that begins with white space or is empty, and one
-- line feed or carriage return; no line terminator is within the rest. In a line of the first kind,
-- which names a cipher, the word is cipher or data-cipher, the case of letters aside, and between
-- it and the rest are spaces or tabs and the name, a further word; in one of the second kind, it is
-- another word than these two.
pub scan_ovpn_for_non_aead_cipher-file_text :
    (ls : List Line) (rest : Bytes)
    → All IsLine ls
    → IsIndent rest
    → (scan_ovpn_for_non_aead_cipher (file_text rest ls) ≡ false) ↔ All IsAead (named ls)
unfolding scan_ovpn_for_non_aead_cipher
scan_ovpn_for_non_aead_cipher-file_text ls rest a i =
    rw (matches-file_text ls rest a i) (any_refused-IsAead (named ls) (named-IsWord ls a))
