-- ===== src/Dns/Names.antt =====
-- The labels of a host that make_dns_query writes, as skip_dns_name steps over them.
use ovpn2ss.Common.{
  ℕ, zero, suc, ◌+◌, ◌/◌, ◌≤◌, ◌<◌, ◌≡◌, refl, sym, ap, ◌∙◌, inl, inr, true, false, Option, none,
  some, Bytes, [], ◌∷◌, ◌++◌, ltb, ◌==◌, length, get_elem?, arith, Bool-cases, Option-cases, lt→ltb,
  le→ltb_false, is_empty, length-append, append_assoc,
}
use ovpn2ss.Common.Outcome.{Result, ok, err, Result-cases, ◌>>=◌}
use ovpn2ss.Dns.Packet.{read_u8, read_u16, skip_label, skip_round, skip_loop}
use ovpn2ss.Dns.Query.{
  dns_class_in, append_u16, find_dot, put_label, put_labels, query_header, make_dns_query,
}

-- The dot splits the host.
find_dot-length :
    (host label rest : Bytes)
    → find_dot host ≡ some (label, rest)
    → length label + length rest + 1 ≡ length host
unfolding find_dot
find_dot-length [] label rest e = ground arith
find_dot-length (x ∷ xs) label rest e = elim (Bool-cases (x == b'.')) [
  | inl d ↦ ground arith
  | inr d ↦ elim (Option-cases (find_dot xs)) [
    | inl n ↦ ground arith
    | inr ((l, r), s) ↦ ground (arith, find_dot-length xs l r s)
  ]
]

put_labels_total :
    (fuel : ℕ) (host : Bytes)
    → length host < fuel
    → (r : Result Bytes) × (put_labels fuel host ≡ some r)
unfolding put_labels
put_labels_total zero host h = absurd (omega arith)
put_labels_total (suc fuel) host h = elim (Bool-cases (is_empty host)) [
  | inl e ↦ (ok [], rw (e, put_labels))
  | inr e ↦ elim (Option-cases (find_dot host)) [
    | inl d ↦ (put_label host, rw (e, d, put_labels))
    | inr ((label, rest), d) ↦ elim (Result-cases (put_label label)) [
      | inr (x, p) ↦ (err x, rw (e, d, p, put_labels))
      | inl (first, p) ↦
          let (more, m) =
            put_labels_total fuel rest (omega (arith, find_dot-length host label rest d)) in
          (more >>= (λ bytes. ok (first ++ bytes)), rw (e, d, p, m, put_labels) refl)
    ]
  ]
]

-- Whatever the host is, the loop over its labels does not run out of rounds: make_dns_query gives a
-- query or throws.
pub make_dns_query_total :
    (id : ℕ) (host : Bytes) (qtype : ℕ)
    → (r : Result Bytes) × (make_dns_query id host qtype ≡ some r)
unfolding make_dns_query
make_dns_query_total id host qtype =
    let (labels, e) = put_labels_total (suc (length host)) host (omega arith) in
    (
      labels >>= (λ bytes.
          ok (append_u16 (append_u16 (query_header id ++ (bytes ++ 0 ∷ [])) qtype) dns_class_in)),
      rw (e, make_dns_query) refl,
    )

get_elem?-append :
    (pre xs : Bytes) (k i : ℕ) → k ≡ length pre + i → get_elem? (pre ++ xs) k ≡ get_elem? xs i
get_elem?-append [] xs k i e = ap (get_elem? xs) (omega (arith, e))
get_elem?-append (x ∷ pre) xs zero i e = absurd (omega arith)
get_elem?-append (x ∷ pre) xs (suc k) i e = get_elem?-append pre xs k i (omega arith)

-- A read behind a prefix.
pub read_u8-append :
    (pre xs : Bytes) (k i : ℕ) → k ≡ length pre + i → read_u8 (pre ++ xs) k ≡ read_u8 xs i
unfolding read_u8
read_u8-append pre xs k i e = rw (get_elem?-append pre xs k i e, read_u8) refl

pub read_u16-append :
    (pre xs : Bytes) (k i : ℕ) → k ≡ length pre + i → read_u16 (pre ++ xs) k ≡ read_u16 xs i
unfolding read_u16
read_u16-append pre xs k i e =
    rw (read_u8-append pre xs k i e, read_u8-append pre xs (k + 1) (i + 1) (omega arith)) refl

put_label_lem :
    (label first : Bytes)
    → put_label label ≡ ok first
    → (0 < length label) × (length label < 64) × (first ≡ length label ∷ label)
unfolding put_label
put_label_lem label first e = ground arith

skip_label-short :
    (p : Bytes) (o n : ℕ) (next : ℕ → Result (Option ℕ))
    → 0 < n
    → n < 64
    → o + 1 + n ≤ length p
    → skip_label p o next n ≡ next (o + 1 + n)
unfolding skip_label
skip_label-short p o n next a b h =
    let e3 : (n / 64 == 3) ≡ false = ground arith in
    let e0 : (n / 64 == 0) ≡ true = ground arith in
    let e : (n == 0) ≡ false = ground arith in
    rw (e3, e0, e, le→ltb_false (length p) (o + 1 + n) h) refl

-- A label that was put into a packet is skipped.
skip_round-put_label :
    (pre label first rest : Bytes) (next : ℕ → Result (Option ℕ))
    → put_label label ≡ ok first
    → skip_round (pre ++ (first ++ rest)) next (length pre) ≡ next (length (pre ++ first))
unfolding skip_round read_u8
skip_round-put_label pre label first rest next e =
    let (a, b, f) = put_label_lem label first e in
    let packet = pre ++ (length label ∷ (label ++ rest)) in
    let size = length-append pre (length label ∷ (label ++ rest)) in
    let size' = length-append label rest in
    let inside : ltb (length pre) (length packet) ≡ true =
      lt→ltb (length pre) (length packet) (omega (arith, size)) in
    let goes =
      skip_label-short packet (length pre) (length label) next a b (omega (arith, size, size')) in
    let there : length pre + 1 + length label ≡ length (pre ++ (length label ∷ label)) =
      omega (arith, length-append pre (length label ∷ label)) in
    rw (f, inside, read_u8-append pre (length label ∷ (label ++ rest)) (length pre) 0 (omega arith))
      (goes ∙ ap next there)

-- The zero byte ends a name.
skip_round_end :
    (pre rest : Bytes) (next : ℕ → Result (Option ℕ))
    → skip_round (pre ++ 0 ∷ rest) next (length pre) ≡ ok (some (length pre + 1))
unfolding skip_round read_u8 skip_label
skip_round_end pre rest next =
    let inside : ltb (length pre) (length (pre ++ 0 ∷ rest)) ≡ true =
      lt→ltb _ _ (omega (arith, length-append pre (0 ∷ rest))) in
    rw (inside, read_u8-append pre (0 ∷ rest) (length pre) 0 (omega arith)) refl

skip_loop_end :
    (left : ℕ) (pre rest : Bytes)
    → skip_loop left (pre ++ 0 ∷ rest) (length pre) ≡ ok (some (length pre + 1))
unfolding skip_loop
skip_loop_end zero pre rest = skip_round_end pre rest (λ k. ok none)
skip_loop_end (suc left) pre rest = skip_round_end pre rest (skip_loop left (pre ++ 0 ∷ rest))

skip_loop-put_label :
    (left k : ℕ) (label first pre tail : Bytes)
    → put_label label ≡ ok first
    → skip_loop left ((pre ++ first) ++ tail) (length (pre ++ first)) ≡ ok (some k)
    → skip_loop (suc left) (pre ++ (first ++ tail)) (length pre) ≡ ok (some k)
unfolding skip_loop
skip_loop-put_label left k label first pre tail e h =
    skip_round-put_label pre label first tail (skip_loop left (pre ++ (first ++ tail))) e
    ∙ ap (λ p. skip_loop left p (length (pre ++ first))) (sym (append_assoc pre first tail))
    ∙ h

-- How put_labels gives the labels of a host that is not empty.
data Labels (fuel : ℕ) (host labels : Bytes) : Type 0 where
  last : put_label host ≡ ok labels → Labels fuel host labels
  next :
      (label first others more : Bytes)
      → put_label label ≡ ok first
      → length label + length others + 1 ≡ length host
      → put_labels fuel others ≡ some (ok more)
      → labels ≡ first ++ more
      → Labels fuel host labels

put_labels-Labels :
    (fuel : ℕ) (host labels : Bytes)
    → is_empty host ≡ false
    → put_labels (suc fuel) host ≡ some (ok labels)
    → Labels fuel host labels
unfolding put_labels
put_labels-Labels fuel host labels d e = elim (Option-cases (find_dot host)) [
  | inl n ↦ last (ground arith)
  | inr ((label, others), n) ↦ elim (Result-cases (put_label label)) [
    | inr (x, p) ↦ ground arith
    | inl (first, p) ↦ elim (Option-cases (put_labels fuel others)) [
      | inl m ↦ ground arith
      | inr (r, m) ↦ elim (Result-cases r) [
        | inr (x, q) ↦ ground arith
        | inl (more, q) ↦
            next label first others more p (find_dot-length host label others n) (ground arith)
              (ground arith)
      ]
    ]
  ]
]

-- The labels of a host and the zero byte behind them are skipped, wherever they stand in a packet.
pub skip_loop-put_labels :
    (fuel left : ℕ) (host labels pre rest : Bytes)
    → put_labels fuel host ≡ some (ok labels)
    → length host ≤ left
    → skip_loop left (pre ++ (labels ++ 0 ∷ rest)) (length pre)
      ≡ ok (some (length pre + length labels + 1))
unfolding put_labels
skip_loop-put_labels zero left host labels pre rest e h = ground arith
skip_loop-put_labels (suc fuel) left [] labels pre rest e h =
    let done : labels ≡ [] = ground arith in
    rw done (skip_loop_end left pre rest ∙ ap (λ k. ok (some k)) (omega arith))
skip_loop-put_labels (suc fuel) zero (x ∷ host) labels pre rest e h = absurd (omega arith)
skip_loop-put_labels (suc fuel) (suc left) (x ∷ host) labels pre rest e h =
    elim (put_labels-Labels fuel (x ∷ host) labels refl e) [
      | last p ↦ skip_loop-put_label left _ (x ∷ host) labels pre (0 ∷ rest) p (
          skip_loop_end left (pre ++ labels) rest
          ∙ ap (λ k. ok (some k)) (omega (arith, length-append pre labels)))
      | next label first others more p n m eq ↦
          let deeper =
            skip_loop-put_labels fuel left others more (pre ++ first) rest m (omega arith) in
          let sum : length (pre ++ first) + length more + 1
              ≡ length pre + length (first ++ more) + 1 =
            omega (arith, length-append pre first, length-append first more) in
          rw (eq, append_assoc first more (0 ∷ rest))
            (skip_loop-put_label left _ label first pre (more ++ 0 ∷ rest) p
              (deeper ∙ ap (λ k. ok (some k)) sum))
    ]
