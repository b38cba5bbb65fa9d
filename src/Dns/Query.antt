-- ===== src/Dns/Query.antt =====
-- make_dns_query of src/LwipRuntime.cpp.
use ovpn2ss.Common.{
  ℕ, zero, suc, ◌/◌, ◌%◌, ◌||◌, Option, none, some, Bytes, [], ◌∷◌, ◌++◌, ltb, ◌==◌, if◌then◌else◌,
  length, is_empty,
}
use ovpn2ss.Common.Outcome.{Result, ok, err, bad_dns_label, ◌>>=◌}

abbrev pub dns_type_a : ℕ
dns_type_a = 1

abbrev pub dns_type_aaaa : ℕ
dns_type_aaaa = 28

abbrev pub dns_class_in : ℕ
dns_class_in = 1

abbrev pub append_u16 : Bytes → ℕ → Bytes
append_u16 out value = out ++ (value / 256 % 256) ∷ (value % 256) ∷ []

-- `host.find('.', start)` on what is left of the host: the part before the dot and the part behind.
unfoldable pub find_dot : Bytes → Option (Bytes × Bytes)
find_dot [] = none
find_dot (x ∷ xs) =
    if x == b'.'
    then some ([], xs)
    else elim (find_dot xs) [ none ↦ none | some (label, rest) ↦ some (x ∷ label, rest) ]

-- A length byte and the label.
unfoldable pub put_label : Bytes → Result Bytes
put_label label =
    if length label == 0 || ltb 63 (length label)
    then err bad_dns_label
    else ok (length label % 256 ∷ label)

-- The loop over the labels on fuel; `none` means that the fuel ran out.
unfoldable pub put_labels : ℕ → Bytes → Option (Result Bytes)
unfolding find_dot put_label
put_labels zero host = none
put_labels (suc fuel) host = if is_empty host then some (ok []) else elim (find_dot host) [
  | none ↦ some (put_label host)
  | some (label, rest) ↦ elim (put_label label) [
    | err e ↦ some (err e)
    | ok first ↦ elim (put_labels fuel rest) [
      | none ↦ none
      | some more ↦ some (do bytes ← more; ok (first ++ bytes))
    ]
  ]
]

-- The header asks for recursion and counts one question.
abbrev pub query_header : ℕ → Bytes
query_header id =
    append_u16 (append_u16 (append_u16 (append_u16 (append_u16 (append_u16 [] id) 0x0100) 1) 0) 0) 0

-- Each label takes a character of the host at least, so a round for each, and one more, are enough.
unfoldable pub make_dns_query : ℕ → Bytes → ℕ → Option (Result Bytes)
unfolding put_labels
make_dns_query id host qtype = elim (put_labels (suc (length host)) host) [
  | none ↦ none
  | some labels ↦ some (do
    bytes ← labels
    ok (append_u16 (append_u16 (query_header id ++ (bytes ++ 0 ∷ [])) qtype) dns_class_in))
]
