-- ===== src/Dns/InBounds.antt =====
-- parse_dns_response reads no byte behind the end of the packet, whatever the packet is, and its loops
-- end; and it takes an address only from an answer to the query.
use ovpn2ss.Common.{
  ℕ, zero, suc, ◌+◌, ◌*◌, ◌/◌, ◌%◌, ◌^◌, ◌≤◌, ◌<◌, ◌≡◌, refl, ◌⊎◌, inl, inr, not, ◌||◌, ◌&&◌,
  Option, none, some, Bytes, [], ◌∷◌, ltb, ◌==◌, length, get_elem?, arith, Bool-cases, Option-cases,
  ltb_false→le, ltb→lt,
}
use ovpn2ss.Common.Outcome.{Result, ok, err}
use ovpn2ss.Dns.Packet.{
  read_u8, read_u16, read_u32, skip_label, skip_round, skip_loop, skip_dns_name,
}
use ovpn2ss.Dns.Query.{dns_type_a, dns_type_aaaa, dns_class_in}
use ovpn2ss.Dns.Response.{
  IpAddr, ip4, ip6, read_ip4, read_ip6, record_address, skip_questions, read_answers, read_sections,
  parse_dns_response,
}

-- The call reads in bounds.
abbrev pub IsFine {ℓ} : {A : Type ℓ} → Result A → Type ℓ
IsFine {A = A} r = (a : A) × (r ≡ ok a)

get_elem?_in : (xs : Bytes) (i : ℕ) → i < length xs → (x : ℕ) × (get_elem? xs i ≡ some x)
get_elem?_in [] i h = absurd (omega arith)
get_elem?_in (x ∷ xs) zero h = (x, refl)
get_elem?_in (x ∷ xs) (suc i) h = get_elem?_in xs i (omega arith)

read_u8_in : (p : Bytes) (o : ℕ) → o < length p → IsFine (read_u8 p o)
unfolding read_u8
read_u8_in p o h = let (x, e) = get_elem?_in p o h in (x, rw (e, read_u8))

read_u16_in : (p : Bytes) (o : ℕ) → o + 2 ≤ length p → IsFine (read_u16 p o)
unfolding read_u16
read_u16_in p o h =
    let (a, e) = read_u8_in p o (omega arith) in
    let (b, f) = read_u8_in p (o + 1) (omega arith) in (a * 256 + b, rw (e, f))

read_u32_in : (p : Bytes) (o : ℕ) → o + 4 ≤ length p → IsFine (read_u32 p o)
unfolding read_u32
read_u32_in p o h =
    let (a, e) = read_u16_in p o (omega arith) in
    let (b, f) = read_u16_in p (o + 2) (omega arith) in (a * 2 ^ 16 + b, rw (e, f))

-- A skip of a name from `o` answers with no offset, or with one behind `o` and not behind the end.
abbrev pub Fits : Bytes → ℕ → Result (Option ℕ) → Type 0
Fits p o (err e) = ⊥
Fits p o (ok none) = Unit {0}
Fits p o (ok (some k)) = (o < k) × (k ≤ length p)

Fits-before : (p : Bytes) (o m : ℕ) (r : Result (Option ℕ)) → o ≤ m → Fits p m r → Fits p o r
Fits-before p o m (err e) h f = f
Fits-before p o m (ok none) h f = tt
Fits-before p o m (ok (some k)) h f = (omega (arith, f.0), f.1)

skip_label-Fits :
    (p : Bytes) (o len : ℕ) (next : ℕ → Result (Option ℕ))
    → o < length p
    → Fits p (o + 1 + len) (next (o + 1 + len))
    → Fits p o (skip_label p o next len)
unfolding skip_label
skip_label-Fits p o len next h f =
    let f' = Fits-before p o (o + 1 + len) (next (o + 1 + len)) (omega arith) f in
    elim (Bool-cases (len / 64 == 3)) [
      | inl a ↦ elim (Bool-cases (ltb (o + 1) (length p))) [
        | inl b ↦ rw (a, b, skip_label) (omega arith, omega (arith, ltb→lt (o + 1) (length p) b))
        | inr b ↦ rw (a, b, skip_label) tt
      ]
      | inr a ↦ elim (Bool-cases (not (len / 64 == 0))) [
        | inl b ↦ rw (a, b, skip_label) tt
        | inr b ↦ elim (Bool-cases (len == 0)) [
          | inl d ↦ rw (a, b, d, skip_label) (omega arith, omega arith)
          | inr d ↦ elim (Bool-cases (ltb (length p) (o + 1 + len))) [
            | inl e ↦ rw (a, b, d, e, skip_label) tt
            | inr e ↦ rw (a, b, d, e, skip_label) f'
          ]
        ]
      ]
    ]

skip_round-Fits :
    (p : Bytes) (next : ℕ → Result (Option ℕ)) (o : ℕ)
    → ((k : ℕ) → Fits p k (next k))
    → Fits p o (skip_round p next o)
unfolding skip_round
skip_round-Fits p next o f = elim (Bool-cases (ltb o (length p))) [
  | inr e ↦ rw (e, skip_round) tt
  | inl e ↦
      let h = ltb→lt o (length p) e in
      let (len, g) = read_u8_in p o h in
      rw (e, g, skip_round) (skip_label-Fits p o len next h (f (o + 1 + len)))
]

skip_loop-Fits : (left : ℕ) (p : Bytes) (o : ℕ) → Fits p o (skip_loop left p o)
unfolding skip_loop
skip_loop-Fits zero p o = skip_round-Fits p (λ k. ok none) o (λ k. tt)
skip_loop-Fits (suc left) p o = skip_round-Fits p (skip_loop left p) o (skip_loop-Fits left p)

-- Whatever the packet and the offset are, skip_dns_name reads in bounds and ends; it answers with
-- no offset, or with one that is behind the offset it was given and not behind the end of the
-- packet.
skip_dns_name-Fits : (p : Bytes) (o : ℕ) → Fits p o (skip_dns_name p o)
unfolding skip_dns_name
skip_dns_name-Fits p o = skip_loop-Fits 255 p o

-- The two ways in which a skip answers.
skip_dns_name-cases :
    (p : Bytes) (o : ℕ)
    → (skip_dns_name p o ≡ ok none) ⊎ ((k : ℕ) × (skip_dns_name p o ≡ ok (some k)) × (k ≤ length p))
skip_dns_name-cases p o = answered (skip_dns_name p o) (skip_dns_name-Fits p o)
  where
    answered :
        (r : Result (Option ℕ))
        → Fits p o r
        → (r ≡ ok none) ⊎ ((k : ℕ) × (r ≡ ok (some k)) × (k ≤ length p))
    answered (ok none) f = inl refl
    answered (ok (some k)) f = inr (k, refl, f.1)
    answered (err e) f = absurd f

skip_questions_in : (n : ℕ) (p : Bytes) (o : ℕ) → o ≤ length p → IsFine (skip_questions n p o)
unfolding skip_questions
skip_questions_in zero p o h = (some o, refl)
skip_questions_in (suc n) p o h = elim (skip_dns_name-cases p o) [
  | inl e ↦ (none, rw (e, skip_questions))
  | inr (k, e, b) ↦ elim (Bool-cases (ltb (length p) (k + 4))) [
    | inl d ↦ (none, rw (e, skip_questions, d))
    | inr d ↦
        let (r, f) = skip_questions_in n p (k + 4) (ltb_false→le (length p) (k + 4) d) in
        (r, rw (e, skip_questions, d) f)
  ]
]

read_ip4_in : (p : Bytes) (o : ℕ) → o + 4 ≤ length p → IsFine (read_ip4 p o)
unfolding read_ip4
read_ip4_in p o h =
    let (a, e) = read_u8_in p o (omega arith) in
    let (b, f) = read_u8_in p (o + 1) (omega arith) in
    let (c, g) = read_u8_in p (o + 2) (omega arith) in
    let (d, i) = read_u8_in p (o + 3) (omega arith) in (some (ip4 a b c d), rw (e, f, g, i))

read_ip6_in : (p : Bytes) (o : ℕ) → o + 16 ≤ length p → IsFine (read_ip6 p o)
unfolding read_ip6
read_ip6_in p o h =
    let (a, e) = read_u32_in p o (omega arith) in
    let (b, f) = read_u32_in p (o + 4) (omega arith) in
    let (c, g) = read_u32_in p (o + 8) (omega arith) in
    let (d, i) = read_u32_in p (o + 12) (omega arith) in (some (ip6 a b c d), rw (e, f, g, i))

record_address_in :
    (qtype : ℕ) (p : Bytes) (type klass n o : ℕ)
    → o + n ≤ length p
    → IsFine (record_address qtype p type klass n o)
unfolding record_address
record_address_in qtype p type klass n o h =
    elim (Bool-cases (klass == dns_class_in && type == qtype)) [
      | inr a ↦ (none, rw (a, record_address))
      | inl a ↦ elim (Bool-cases (type == dns_type_a && n == 4)) [
        | inl b ↦ let (r, e) = read_ip4_in p o (ground arith) in (r, rw (a, b, record_address) e)
        | inr b ↦ elim (Bool-cases (type == dns_type_aaaa && n == 16)) [
          | inl d ↦
              let (r, e) = read_ip6_in p o (ground arith) in (r, rw (a, b, d, record_address) e)
          | inr d ↦ (none, rw (a, b, d, record_address))
        ]
      ]
    ]

read_answers_in : (n qtype : ℕ) (p : Bytes) (o : ℕ) → IsFine (read_answers n qtype p o)
unfolding read_answers
read_answers_in zero qtype p o = (none, refl)
read_answers_in (suc n) qtype p o = elim (skip_dns_name-cases p o) [
  | inl e ↦ (none, rw (e, read_answers))
  | inr (k, e, b) ↦ elim (Bool-cases (ltb (length p) (k + 10))) [
    | inl d ↦ (none, rw (e, read_answers, d))
    | inr d ↦
        let fits = ltb_false→le (length p) (k + 10) d in
        let (type, f1) = read_u16_in p k (omega arith) in
        let (klass, f2) = read_u16_in p (k + 2) (omega arith) in
        let (rdlen, f3) = read_u16_in p (k + 8) (omega arith) in
        elim (Bool-cases (ltb (length p) (k + 10 + rdlen))) [
          | inl g ↦ (none, rw (e, read_answers, d, f1, f2, f3, g))
          | inr g ↦
              let (found, r) =
                record_address_in qtype p type klass rdlen (k + 10)
                  (ltb_false→le (length p) (k + 10 + rdlen) g) in
              elim (Option-cases found) [
                | inr (ip, i) ↦ (some ip, rw (e, read_answers, d, f1, f2, f3, g, r, i))
                | inl i ↦
                    let (last, j) = read_answers_in n qtype p (k + 10 + rdlen) in
                    (last, rw (e, read_answers, d, f1, f2, f3, g, r, i) j)
              ]
        ]
  ]
]

read_sections_in : (qtype : ℕ) (p : Bytes) → 12 ≤ length p → IsFine (read_sections qtype p)
unfolding read_sections
read_sections_in qtype p h =
    let (q, e) = read_u16_in p 4 (omega arith) in
    let (a, f) = read_u16_in p 6 (omega arith) in
    let (found, g) = skip_questions_in q p 12 h in
    elim (Option-cases found) [
      | inl i ↦ (none, rw (e, f, g, i))
      | inr (o, i) ↦ let (r, j) = read_answers_in a qtype p o in (r, rw (e, f, g, i) j)
    ]

-- Whatever the packet is, parse_dns_response reads no byte behind its end, and it ends: it answers
-- with an address or with none.
pub parse_dns_response_in :
    (p : Bytes) (id qtype : ℕ)
    → (answer : Option IpAddr) × (parse_dns_response p id qtype ≡ ok answer)
unfolding parse_dns_response
parse_dns_response_in p id qtype = elim (Bool-cases (ltb (length p) 12)) [
  | inl e ↦ (none, rw (e, parse_dns_response))
  | inr e ↦
      let h = ltb_false→le (length p) 12 e in
      let (i, f) = read_u16_in p 0 (omega arith) in
      let (flags, g) = read_u16_in p 2 (omega arith) in
      let (r, j) = read_sections_in qtype p h in
      elim (Bool-cases (not (i == id))) [
        | inl a ↦ (none, rw (e, f, a, parse_dns_response))
        | inr a ↦ elim (Bool-cases (flags / 2 ^ 15 % 2 == 0 || not (flags % 16 == 0))) [
          | inl b ↦ (none, rw (e, f, a, g, b, parse_dns_response))
          | inr b ↦ (r, rw (e, f, a, g, b, parse_dns_response) j)
        ]
      ]
]
