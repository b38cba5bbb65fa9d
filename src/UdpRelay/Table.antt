-- ===== src/UdpRelay/Table.antt =====
-- The table of mappings against the pcbs that were made and removed.
use ovpn2ss.Common.{
  count, count-append, ℕ, ◌+◌, ◌≡◌, refl, sym, ap, ◌∙◌, inl, inr, false, none, some, Bytes, List,
  [], ◌∷◌, ◌++◌, arith, Bool-cases, Option-cases, same, same_sound, same_self,
}
use ovpn2ss.Address.{TargetAddress}
use ovpn2ss.UdpRelay.Stack.{Stack}
use ovpn2ss.UdpRelay.State.{Mapping, Relay, mapping_key}
use ovpn2ss.UdpRelay.Mappings.{
  find, without, remove_pcb, new_mapping, mapping_for, erase_mapping, remove_all, stop,
}

module _ (u : Stack) where
  abbrev pub pcbs : List (Mapping u) → List ℕ
  pcbs [] = []
  pcbs (m ∷ ms) = m.pcb ∷ pcbs ms

  -- No two mappings have the same key.
  abbrev pub IsDistinct : List (Mapping u) → Type 0
  IsDistinct [] = Unit {0}
  IsDistinct (m ∷ ms) = (find u m.key ms ≡ none) × IsDistinct ms

  pub record IsSound (r : Relay u) : Type 0 where
    pub accounts : (p : ℕ) → count p r.made ≡ count p r.removed + count p (pcbs r.mappings)
    pub distinct : IsDistinct r.mappings

  pcbs-append : (ms ns : List (Mapping u)) → pcbs (ms ++ ns) ≡ pcbs ms ++ pcbs ns
  pcbs-append [] ns = refl
  pcbs-append (m ∷ ms) ns = ap (◌∷◌ m.pcb) (pcbs-append ms ns)

  count-without :
      (p : ℕ) (key : Bytes) (ms : List (Mapping u)) (m : Mapping u)
      → find u key ms ≡ some m
      → count p (pcbs ms) ≡ count p (m.pcb ∷ []) + count p (pcbs (without u key ms))
  unfolding find without
  count-without p key [] m e = ground arith
  count-without p key (x ∷ ms) m e = elim (Bool-cases (same x.key key)) [
    | inl s ↦ let hit : x ≡ m = ground arith in rw (s, without, ← hit) (omega arith)
    | inr s ↦
        let later : find u key ms ≡ some m = ground arith in
        rw (s, without) (omega (arith, count-without p key ms m later))
  ]

  find-without :
      (k key : Bytes) (ms : List (Mapping u))
      → find u k ms ≡ none
      → find u k (without u key ms) ≡ none
  unfolding find without
  find-without k key [] e = refl
  find-without k key (x ∷ ms) e = ground (arith, find-without k key ms)

  IsDistinct-without :
      (key : Bytes) (ms : List (Mapping u)) → IsDistinct ms → IsDistinct (without u key ms)
  unfolding without
  IsDistinct-without key [] d = tt
  IsDistinct-without key (x ∷ ms) d = elim (Bool-cases (same x.key key)) [
    | inl s ↦ rw (s, without) d.1
    | inr s ↦ rw (s, without) (find-without x.key key ms d.0, IsDistinct-without key ms d.1)
  ]

  find-append :
      (k : Bytes) (ms : List (Mapping u)) (m : Mapping u)
      → find u k ms ≡ none
      → same m.key k ≡ false
      → find u k (ms ++ m ∷ []) ≡ none
  unfolding find
  find-append k [] m e s = ground arith
  find-append k (x ∷ ms) m e s = ground (arith, find-append k ms m)

  IsDistinct-append :
      (ms : List (Mapping u)) (m : Mapping u)
      → find u m.key ms ≡ none
      → IsDistinct ms
      → IsDistinct (ms ++ m ∷ [])
  unfolding find
  IsDistinct-append [] m e d = (refl, tt)
  IsDistinct-append (x ∷ ms) m e d =
      let other : same x.key m.key ≡ false = ground arith in
      let later : find u m.key ms ≡ none = ground arith in
      let other' : same m.key x.key ≡ false = elim (Bool-cases (same m.key x.key)) [
        | inl s ↦
            cc (
              ap (λ k. same k m.key) (sym (same_sound m.key x.key s)) ∙ refl,
              same_self m.key,
              other,
            )
        | inr s ↦ s
      ] in
      (find-append x.key ms m d.0 other', IsDistinct-append ms m later d.1)

  pub mapping_for-IsSound :
      (client : u.Endpoint) (t : TargetAddress) (r : Relay u)
      → IsSound r
      → IsSound (mapping_for u client t r).0
  unfolding mapping_for
  mapping_for-IsSound client t r v =
      elim (Option-cases (find u (mapping_key u client t) r.mappings)) [
        | inr (m, e) ↦ rw (e, mapping_for) v
        | inl e ↦ elim (Option-cases (u.udp_new_pcb r.lwip).0) [
          | inl n ↦ rw (e, n, mapping_for) (record { accounts = v.accounts; distinct = v.distinct })
          | inr (q, n) ↦
              rw (e, n, mapping_for)
                (record {
                  accounts = λ p. omega (
                    arith,
                    v.accounts p,
                    ap (count p) (pcbs-append r.mappings (new_mapping u client t q ∷ [])),
                    count-append p (pcbs r.mappings) (q ∷ []),
                  );
                  distinct = IsDistinct-append r.mappings (new_mapping u client t q) e v.distinct;
                })
        ]
      ]

  pub erase_mapping-IsSound :
      (key : Bytes) (r : Relay u) → IsSound r → IsSound (erase_mapping u key r)
  unfolding erase_mapping
  erase_mapping-IsSound key r v = elim (Option-cases (find u key r.mappings)) [
    | inl e ↦ rw (e, erase_mapping) v
    | inr (m, e) ↦
        rw (e, erase_mapping)
          (record {
            accounts = λ p. omega (arith, v.accounts p, count-without p key r.mappings m e);
            distinct = IsDistinct-without key r.mappings v.distinct;
          })
  ]

  remove_all-count :
      (p : ℕ) (ms : List (Mapping u)) (r : Relay u)
      → (count p (remove_all u ms r).removed ≡ count p r.removed + count p (pcbs ms))
        × ((remove_all u ms r).made ≡ r.made)
  unfolding remove_all
  remove_all-count p [] r = (omega arith, refl)
  remove_all-count p (m ∷ ms) r =
      let (a, b) = remove_all-count p ms (remove_pcb u m.pcb r) in (omega (arith, a), b)

  pub stop-IsSound : (r : Relay u) → IsSound r → IsSound (stop u r)
  unfolding stop
  stop-IsSound r v = record {
    accounts = λ p.
        let (a, b) =
          remove_all-count p r.mappings
            (record r { running = false; has_token = false; socket_open = false }) in
        omega (arith, a, ap (count p) b, v.accounts p);
    distinct = tt;
  }
