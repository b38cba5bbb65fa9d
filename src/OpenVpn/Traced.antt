-- ===== src/OpenVpn/Traced.antt =====
-- What every tunnel in memory has posted and given to its parent, against what lwIP has emitted.
use ovpn2ss.Common.{
  ◌≡◌, refl, ◌⊎◌, inl, inr, Bool, true, false, not, ◌||◌, Bytes, List, ◌∷◌, [], ◌++◌, is_empty,
  arith, append_assoc, Bool-cases,
}
use ovpn2ss.Common.Sublist.{IsSublist, IsSublist-skip, IsSublist-keep, IsSublist-drop}
use ovpn2ss.OpenVpn.Tunnel.{
  Told, tun_connected, MemoryTun, new_tun, tell, connect, post_packet, run_posted,
}

abbrev is_tun_connected : Told → Bool
is_tun_connected tun_connected = true
is_tun_connected _ = false

abbrev pub was_connected : List Told → Bool
was_connected [] = false
was_connected (x ∷ xs) = is_tun_connected x || was_connected xs

-- What a tunnel has given to its parent, and what it has posted behind that, comes from the packets
-- that were emitted by leaving out some. Before its parent was told that it is connected, there is
-- nothing of either.
pub record IsTraced (emitted : List Bytes) (m : MemoryTun) : Type 0 where
  pub sublist : IsSublist (m.received ++ m.posted) emitted
  pub greeted :
      (was_connected m.told ≡ true) ⊎ ((m.connected ≡ false) × (m.posted ≡ []) × (m.received ≡ []))

was_connected-append :
    (xs : List Told) (x : Told)
    → was_connected (xs ++ x ∷ []) ≡ (was_connected xs || is_tun_connected x)
was_connected-append [] x = ground arith
was_connected-append (y ∷ ys) x = ground (arith, was_connected-append ys x)

pub tell-IsTraced :
    (x : Told) (em : List Bytes) (m : MemoryTun) → IsTraced em m → IsTraced em (tell x m)
tell-IsTraced x em m v = record {
  sublist = v.sublist;
  greeted = ground (arith, v.greeted, was_connected-append m.told x);
}

pub connect-IsTraced : (em : List Bytes) (m : MemoryTun) → IsTraced em m → IsTraced em (connect m)
connect-IsTraced em m v = record {
  sublist = v.sublist;
  greeted = inl (ground (arith, was_connected-append m.told tun_connected));
}

pub disconnect-IsTraced :
    (em : List Bytes) (m : MemoryTun) → IsTraced em m → IsTraced em (record m { connected = false })
disconnect-IsTraced em m v = record { sublist = v.sublist; greeted = ground (arith, v.greeted) }

pub new_tun-IsTraced : (em : List Bytes) → IsTraced em new_tun
new_tun-IsTraced em = record { sublist = tt; greeted = inr (refl, refl, refl) }

-- The first call that is posted runs, if there is one.
run_first-IsTraced :
    (em : List Bytes) (m : MemoryTun) (posted : List Bytes)
    → m.posted ≡ posted
    → IsTraced em m
    → IsTraced em (run_posted m)
unfolding run_posted
run_first-IsTraced em m [] e v = rw (e, run_posted) v
run_first-IsTraced em m (p ∷ rest) e v =
    let whole : IsSublist (m.received ++ p ∷ rest) em = rw e at v.sublist in
    elim (Bool-cases m.connected) [
      | inl c ↦
          rw (e, run_posted, c)
            (record {
              sublist = rw (append_assoc m.received (p ∷ []) rest) whole;
              greeted = inl (ground (arith, v.greeted));
            })
      | inr c ↦
          rw (e, run_posted, c)
            (record {
              sublist = IsSublist-drop m.received p rest em whole;
              greeted = inl (ground (arith, v.greeted));
            })
    ]

pub run_posted-IsTraced :
    (em : List Bytes) (m : MemoryTun) → IsTraced em m → IsTraced em (run_posted m)
run_posted-IsTraced em m v = run_first-IsTraced em m m.posted refl v

-- Another packet is emitted, which this tunnel does not see, or is given.
pub skip-IsTraced :
    (em : List Bytes) (p : Bytes) (m : MemoryTun) → IsTraced em m → IsTraced (em ++ p ∷ []) m
skip-IsTraced em p m v = record { sublist = IsSublist-skip _ em p v.sublist; greeted = v.greeted }

pub post_packet-IsTraced :
    (em : List Bytes) (p : Bytes) (m : MemoryTun)
    → IsTraced em m
    → IsTraced (em ++ p ∷ []) (post_packet p m)
unfolding post_packet
post_packet-IsTraced em p m v = elim (Bool-cases (not m.connected || is_empty p)) [
  | inl c ↦ rw (c, post_packet) (skip-IsTraced em p m v)
  | inr c ↦
      rw (c, post_packet)
        (record {
          sublist =
              rw (← append_assoc m.received m.posted (p ∷ []))
                (IsSublist-keep (m.received ++ m.posted) em p v.sublist);
          greeted = inl (ground (arith, v.greeted));
        })
]
