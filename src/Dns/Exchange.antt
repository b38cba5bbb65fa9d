-- ===== src/Dns/Exchange.antt =====
-- A query that make_dns_query writes, and the answer of a server to it as parse_dns_response reads it.
use ovpn2ss.Common.{
  ℕ, suc, ◌+◌, ◌*◌, ◌/◌, ◌%◌, ◌^◌, ◌≤◌, ◌<◌, ◌≡◌, refl, sym, ap, ◌∙◌, inl, inr, true, false, Option,
  some, Bytes, [], ◌∷◌, ◌++◌, ltb, ◌==◌, length, arith, Option-cases, lt→ltb, le→ltb_false,
  length-append, append_assoc, take, drop,
}
use ovpn2ss.Common.Outcome.{Result, ok, Result-cases}
use ovpn2ss.Dns.Packet.{read_u8, read_u16, skip_dns_name}
use ovpn2ss.Dns.Query.{
  dns_type_a, dns_class_in, append_u16, put_labels, query_header, make_dns_query,
}
use ovpn2ss.Dns.Response.{
  IpAddr, ip4, skip_questions, read_answers, read_sections, parse_dns_response,
}
use ovpn2ss.Dns.Names.{read_u8-append, read_u16-append, skip_loop-put_labels}

-- What a server sends: the identity and the question of the query, its flags, one answer, and any
-- further sections behind it.
abbrev pub reply : ℕ → Bytes → Bytes → Bytes
reply flags query records =
    take 2 query
    ++ ((flags / 256 % 256)
        ∷ (flags % 256)
        ∷ 0
        ∷ 1
        ∷ 0
        ∷ 1
        ∷ 0
        ∷ 0
        ∷ 0
        ∷ 0
        ∷ (drop 12 query ++ records))

-- An A record whose name points to that of the question, with its time to live.
abbrev pub a_record : Bytes → Bytes → Bytes → Bytes
a_record (t1 ∷ t2 ∷ t3 ∷ t4 ∷ _) (a ∷ b ∷ c ∷ d ∷ _) more =
    192 ∷ 12 ∷ 0 ∷ 1 ∷ 0 ∷ 1 ∷ t1 ∷ t2 ∷ t3 ∷ t4 ∷ 0 ∷ 4 ∷ a ∷ b ∷ c ∷ d ∷ more
a_record _ _ more = more

skip_dns_name_pointer :
    (pre rest : Bytes)
    → skip_dns_name (pre ++ 192 ∷ 12 ∷ rest) (length pre) ≡ ok (some (length pre + 2))
unfolding skip_dns_name read_u8
skip_dns_name_pointer pre rest =
    let size = length-append pre (192 ∷ 12 ∷ rest) in
    let inside : ltb (length pre) (length (pre ++ 192 ∷ 12 ∷ rest)) ≡ true =
      lt→ltb _ _ (omega (arith, size)) in
    let whole : ltb (length pre + 1) (length (pre ++ 192 ∷ 12 ∷ rest)) ≡ true =
      lt→ltb _ _ (omega (arith, size)) in
    rw (inside, read_u8-append pre (192 ∷ 12 ∷ rest) (length pre) 0 (omega arith), whole) refl

read_answers-a_record :
    (t1 t2 t3 t4 a b c d : ℕ) (pre more : Bytes)
    → read_answers 1 dns_type_a
        (pre ++ a_record (t1 ∷ t2 ∷ t3 ∷ t4 ∷ []) (a ∷ b ∷ c ∷ d ∷ []) more)
        (length pre)
      ≡ ok (some (ip4 a b c d))
unfolding read_answers read_u16 read_u8
read_answers-a_record t1 t2 t3 t4 a b c d pre more =
    let o = length pre in
    let rec = a_record (t1 ∷ t2 ∷ t3 ∷ t4 ∷ []) (a ∷ b ∷ c ∷ d ∷ []) more in
    let size = length-append pre rec in
    rw
      (
        skip_dns_name_pointer pre (drop 2 rec),
        le→ltb_false (length (pre ++ rec)) (o + 2 + 10) (omega (arith, size)),
        read_u16-append pre rec (o + 2) 2 (omega arith),
        read_u16-append pre rec (o + 2 + 2) 4 (omega arith),
        read_u16-append pre rec (o + 2 + 8) 10 (omega arith),
        le→ltb_false (length (pre ++ rec)) (o + 2 + 10 + 4) (omega (arith, size)),
        read_u8-append pre rec (o + 2 + 10) 12 (omega arith),
        read_u8-append pre rec (o + 2 + 10 + 1) 13 (omega arith),
        read_u8-append pre rec (o + 2 + 10 + 2) 14 (omega arith),
        read_u8-append pre rec (o + 2 + 10 + 3) 15 (omega arith),
      )
      refl

-- The bytes of a query, with the labels of its host.
make_dns_query_lem :
    (id qtype : ℕ) (host query : Bytes)
    → make_dns_query id host qtype ≡ some (ok query)
    → (labels : Bytes) × (put_labels (suc (length host)) host ≡ some (ok labels))
      × (query ≡ append_u16 (append_u16 (query_header id ++ (labels ++ 0 ∷ [])) qtype) dns_class_in)
unfolding make_dns_query
make_dns_query_lem id qtype host query e =
    elim (Option-cases (put_labels (suc (length host)) host)) [
      | inl n ↦ ground arith
      | inr (r, n) ↦ elim (Result-cases r) [
        | inr (x, p) ↦ ground arith
        | inl (labels, p) ↦ (labels, ground arith, ground arith)
      ]
    ]

-- The question of a query is stepped over.
skip_questions-question :
    (host labels header tail : Bytes)
    → put_labels (suc (length host)) host ≡ some (ok labels)
    → length host ≤ 255
    → 4 ≤ length tail
    → skip_questions 1 (header ++ (labels ++ 0 ∷ tail)) (length header)
      ≡ ok (some (length header + length labels + 5))
unfolding skip_questions skip_dns_name
skip_questions-question host labels header tail e h t =
    let packet = header ++ (labels ++ 0 ∷ tail) in
    let size = length-append header (labels ++ 0 ∷ tail) in
    let size' = length-append labels (0 ∷ tail) in
    let o = length header + length labels + 1 in
    rw
      (
        skip_loop-put_labels (suc (length host)) 255 host labels header tail e h,
        le→ltb_false (length packet) (o + 4) (omega (arith, size, size')),
      )
      (ap (λ k. ok (some k)) (omega arith))

read_sections-reply :
    (host labels rec : Bytes) (h0 h1 h2 h3 t1 t2 t3 t4 a b c d : ℕ) (more : Bytes)
    → put_labels (suc (length host)) host ≡ some (ok labels)
    → length host ≤ 255
    → rec ≡ a_record (t1 ∷ t2 ∷ t3 ∷ t4 ∷ []) (a ∷ b ∷ c ∷ d ∷ []) more
    → read_sections dns_type_a (
        (h0 ∷ h1 ∷ h2 ∷ h3 ∷ 0 ∷ 1 ∷ 0 ∷ 1 ∷ 0 ∷ 0 ∷ 0 ∷ 0 ∷ [])
        ++ (labels ++ 0 ∷ ((0 ∷ 1 ∷ 0 ∷ 1 ∷ []) ++ rec)))
      ≡ ok (some (ip4 a b c d))
unfolding read_sections read_u16 read_u8
read_sections-reply host labels rec h0 h1 h2 h3 t1 t2 t3 t4 a b c d more e h is_rec =
    let header : Bytes = h0 ∷ h1 ∷ h2 ∷ h3 ∷ 0 ∷ 1 ∷ 0 ∷ 1 ∷ 0 ∷ 0 ∷ 0 ∷ 0 ∷ [] in
    let asked : Bytes = 0 ∷ 1 ∷ 0 ∷ 1 ∷ [] in
    let pre = header ++ (labels ++ 0 ∷ asked) in
    let there : length header + length labels + 5 ≡ length pre =
      omega (arith, length-append labels (0 ∷ asked)) in
    let split : header ++ (labels ++ 0 ∷ (asked ++ rec)) ≡ pre ++ rec =
      ap (◌++◌ header) (sym (append_assoc labels (0 ∷ asked) rec))
      ∙ sym (append_assoc header (labels ++ 0 ∷ asked) rec) in
    rw (skip_questions-question host labels header (asked ++ rec) e h (omega arith)) (
      ap (λ k. read_answers 1 dns_type_a (header ++ (labels ++ 0 ∷ (asked ++ rec))) k) there
      ∙ ap (λ p. read_answers 1 dns_type_a p (length pre)) split
      ∙ ap (λ x. read_answers 1 dns_type_a (pre ++ x) (length pre)) is_rec
      ∙ read_answers-a_record t1 t2 t3 t4 a b c d pre more)

-- A reply whose identity and flags pass is read on.
parse_dns_response-header :
    (id flags : ℕ) (rest : Bytes)
    → id < 65536
    → flags < 65536
    → flags / 2 ^ 15 ≡ 1
    → flags % 16 ≡ 0
    → 8 ≤ length rest
    → let packet = (id / 256 % 256) ∷ (id % 256) ∷ (flags / 256 % 256) ∷ (flags % 256) ∷ rest in
      parse_dns_response packet id dns_type_a ≡ read_sections dns_type_a packet
unfolding parse_dns_response read_u16 read_u8
parse_dns_response-header id flags rest hi hf top low h =
    let self : (id == id) ≡ true = ground arith in
    let same_id : id / 256 % 256 * 256 + id % 256 ≡ id = omega arith in
    let same_flags : flags / 256 % 256 * 256 + flags % 256 ≡ flags = omega arith in
    let long' : ltb (length (0 ∷ 0 ∷ 0 ∷ 0 ∷ rest)) 12 ≡ false = le→ltb_false _ _ (omega arith) in
    rw (long', same_id, same_flags, top, low, self, parse_dns_response) refl

-- For a host of 255 characters at most and a 16-bit identity, the reply to a query that
-- make_dns_query gave, with the question repeated, flags that mark a response without an error, and
-- an A record that points to the question's name, is read as the address in the record, whatever
-- follows it.
pub parse_dns_response-make_dns_query :
    (id flags : ℕ) (host query : Bytes) (t1 t2 t3 t4 a b c d : ℕ) (more : Bytes)
    → id < 65536
    → flags < 65536
    → flags / 2 ^ 15 ≡ 1
    → flags % 16 ≡ 0
    → length host ≤ 255
    → make_dns_query id host dns_type_a ≡ some (ok query)
    → parse_dns_response
        (reply flags query (a_record (t1 ∷ t2 ∷ t3 ∷ t4 ∷ []) (a ∷ b ∷ c ∷ d ∷ []) more))
        id
        dns_type_a
      ≡ ok (some (ip4 a b c d))
parse_dns_response-make_dns_query id flags host query t1 t2 t3 t4 a b c d more hi hf top low h e =
    let (labels, put, is) = make_dns_query_lem id dns_type_a host query e in
    let rec = a_record (t1 ∷ t2 ∷ t3 ∷ t4 ∷ []) (a ∷ b ∷ c ∷ d ∷ []) more in
    let tail : ((((labels ++ 0 ∷ []) ++ 0 ∷ 1 ∷ []) ++ 0 ∷ 1 ∷ []) ++ rec)
        ≡ labels ++ 0 ∷ ((0 ∷ 1 ∷ 0 ∷ 1 ∷ []) ++ rec) =
      rw (append_assoc, append_assoc, append_assoc) refl in
    let rest = labels ++ 0 ∷ ((0 ∷ 1 ∷ 0 ∷ 1 ∷ []) ++ rec) in
    let parse : Bytes → Result (Option IpAddr) = λ xs.
      parse_dns_response
        ((id / 256 % 256)
          ∷ (id % 256)
          ∷ (flags / 256 % 256)
          ∷ (flags % 256)
          ∷ 0
          ∷ 1
          ∷ 0
          ∷ 1
          ∷ 0
          ∷ 0
          ∷ 0
          ∷ 0
          ∷ xs)
        id dns_type_a in
    ap (λ q. parse_dns_response (reply flags q rec) id dns_type_a) is
    ∙ ap parse tail
    ∙ parse_dns_response-header id flags (0 ∷ 1 ∷ 0 ∷ 1 ∷ 0 ∷ 0 ∷ 0 ∷ 0 ∷ rest) hi hf top low
        (omega arith)
    ∙ read_sections-reply host labels rec (id / 256 % 256) (id % 256) (flags / 256 % 256)
        (flags % 256) t1 t2 t3 t4 a b c d more put h refl
