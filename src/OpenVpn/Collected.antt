-- ===== src/OpenVpn/Collected.antt =====
-- The configuration that the calls of src/OpenVpnTunBuilder.cpp collect.
use ovpn2ss.Common.{
  ◌≡◌, ◌∙◌, refl, ◌⊎◌, inl, inr, Bool, true, false, Bytes, List, [], ◌∷◌, ◌++◌, if◌then◌else◌,
  arith, Bool-cases, append-nil, append_assoc,
}
use ovpn2ss.Common.Int.{ℤ, pos, negsuc}
use ovpn2ss.Runtime.Net.{Net}
use ovpn2ss.Runtime.State.{TunAddress, TunConfig}
use ovpn2ss.Runtime.Config.{apply_tun_config, apply_tun_config_and_output}
use ovpn2ss.OpenVpn.TunBuilder.{
  has_colon, Builder, tun_builder_new, tun_builder_establish, tun_builder_add_dns_server,
  add_addresses, tun_builder_set_dns_options, tun_builder_add_address, tun_builder_set_mtu, TunCall,
  add_address, set_mtu, set_dns_options, other, tun_call, tun_calls,
}

-- Those with a colon, or those without.
abbrev pub of_family : Bool → List Bytes → List Bytes
of_family ipv6 [] = []
of_family true (a ∷ more) = if has_colon a then a ∷ of_family true more else of_family true more
of_family false (a ∷ more) = if has_colon a then of_family false more else a ∷ of_family false more

abbrev pub joined : List (List Bytes) → List Bytes
joined [] = []
joined (s ∷ servers) = s ++ joined servers

of_family-append :
    (v : Bool) (xs ys : List Bytes) → of_family v (xs ++ ys) ≡ of_family v xs ++ of_family v ys
of_family-append true [] ys = refl
of_family-append false [] ys = refl
of_family-append true (x ∷ xs) ys = ground (arith, of_family-append true xs ys)
of_family-append false (x ∷ xs) ys = ground (arith, of_family-append false xs ys)

module _ (n : Net) where
  -- What the calls tell, read off their list.
  abbrev pub addresses_in : List (TunCall n) → List TunAddress
  addresses_in [] = []
  addresses_in (add_address t ∷ cs) = t ∷ addresses_in cs
  addresses_in (set_mtu mtu ∷ cs) = addresses_in cs
  addresses_in (set_dns_options servers ∷ cs) = addresses_in cs
  addresses_in (other call ∷ cs) = addresses_in cs

  abbrev pub dns_in : List (TunCall n) → List Bytes
  dns_in [] = []
  dns_in (add_address t ∷ cs) = dns_in cs
  dns_in (set_mtu mtu ∷ cs) = dns_in cs
  dns_in (set_dns_options servers ∷ cs) = joined servers ++ dns_in cs
  dns_in (other call ∷ cs) = dns_in cs

  abbrev pub mtu_in : ℤ → List (TunCall n) → ℤ
  mtu_in mtu [] = mtu
  mtu_in mtu (add_address t ∷ cs) = mtu_in mtu cs
  mtu_in mtu (set_mtu mtu' ∷ cs) = mtu_in mtu' cs
  mtu_in mtu (set_dns_options servers ∷ cs) = mtu_in mtu cs
  mtu_in mtu (other call ∷ cs) = mtu_in mtu cs

  -- `b'` is `b` with these addresses and servers behind its own, and that MTU.
  record Extends (ts : List TunAddress) (dns : List Bytes) (mtu : ℤ) (b b' : Builder n)
      : Type 0 where
    pub same_lwip : b'.lwip ≡ b.lwip
    pub addresses : b'.pending.addresses ≡ b.pending.addresses ++ ts
    pub ipv4_dns : b'.pending.ipv4_dns ≡ b.pending.ipv4_dns ++ of_family false dns
    pub ipv6_dns : b'.pending.ipv6_dns ≡ b.pending.ipv6_dns ++ of_family true dns
    pub last_mtu : b'.pending.mtu ≡ mtu

  nothing_told : (b : Builder n) → Extends [] [] b.pending.mtu b b
  nothing_told b = record {
    same_lwip = refl;
    addresses = ground (arith, append-nil b.pending.addresses);
    ipv4_dns = ground (arith, append-nil b.pending.ipv4_dns);
    ipv6_dns = ground (arith, append-nil b.pending.ipv6_dns);
    last_mtu = refl;
  }

  more_told :
      (ts ts' : List TunAddress) (dns dns' : List Bytes) (mtu mtu' : ℤ) (b b' b'' : Builder n)
      → Extends ts dns mtu b b'
      → Extends ts' dns' mtu' b' b''
      → Extends (ts ++ ts') (dns ++ dns') mtu' b b''
  more_told ts ts' dns dns' mtu mtu' b b' b'' x y = record {
    same_lwip = y.same_lwip ∙ x.same_lwip;
    addresses = ground (arith, x.addresses, y.addresses, append_assoc b.pending.addresses ts ts');
    ipv4_dns = ground (
      arith,
      x.ipv4_dns,
      y.ipv4_dns,
      of_family-append false dns dns',
      append_assoc b.pending.ipv4_dns (of_family false dns) (of_family false dns'),
    );
    ipv6_dns = ground (
      arith,
      x.ipv6_dns,
      y.ipv6_dns,
      of_family-append true dns dns',
      append_assoc b.pending.ipv6_dns (of_family true dns) (of_family true dns'),
    );
    last_mtu = y.last_mtu;
  }

  add_dns_server-Extends :
      (a : Bytes) (b : Builder n)
      → Extends [] (a ∷ []) b.pending.mtu b (tun_builder_add_dns_server n a (has_colon a) b)
  unfolding tun_builder_add_dns_server
  add_dns_server-Extends a b = elim (Bool-cases (has_colon a)) [
    | inl c ↦ record {
      same_lwip = ground arith;
      addresses = ground (arith, append-nil b.pending.addresses);
      ipv4_dns = ground (arith, append-nil b.pending.ipv4_dns);
      ipv6_dns = ground (arith, append-nil b.pending.ipv6_dns);
      last_mtu = ground arith;
    }
    | inr c ↦ record {
      same_lwip = ground arith;
      addresses = ground (arith, append-nil b.pending.addresses);
      ipv4_dns = ground (arith, append-nil b.pending.ipv4_dns);
      ipv6_dns = ground (arith, append-nil b.pending.ipv6_dns);
      last_mtu = ground arith;
    }
  ]

  add_addresses-Extends :
      (dns : List Bytes) (b : Builder n) → Extends [] dns b.pending.mtu b (add_addresses n dns b)
  unfolding add_addresses
  add_addresses-Extends [] b = nothing_told b
  add_addresses-Extends (a ∷ more) b =
      let b1 = tun_builder_add_dns_server n a (has_colon a) b in
      let first = add_dns_server-Extends a b in
      let rest = add_addresses-Extends more b1 in
      rw (first.last_mtu) at
        (more_told [] [] (a ∷ []) more b.pending.mtu b1.pending.mtu b b1 _ first rest)

  set_dns_options-Extends :
      (servers : List (List Bytes)) (b : Builder n)
      → Extends [] (joined servers) b.pending.mtu b (tun_builder_set_dns_options n servers b)
  unfolding tun_builder_set_dns_options
  set_dns_options-Extends [] b = nothing_told b
  set_dns_options-Extends (s ∷ servers) b =
      let b1 = add_addresses n s b in
      let first = add_addresses-Extends s b in
      let rest = set_dns_options-Extends servers b1 in
      rw (first.last_mtu) at
        (more_told [] [] s (joined servers) b.pending.mtu b1.pending.mtu b b1 _ first rest)

  tun_calls-Extends :
      (cs : List (TunCall n)) (b : Builder n)
      → Extends (addresses_in cs) (dns_in cs) (mtu_in b.pending.mtu cs) b (tun_calls n cs b)
  unfolding tun_calls tun_call tun_builder_add_address tun_builder_set_mtu
  tun_calls-Extends [] b = nothing_told b
  tun_calls-Extends (add_address t ∷ cs) b =
      let b1 = tun_builder_add_address n t b in
      more_told (t ∷ []) (addresses_in cs) [] (dns_in cs) b.pending.mtu _ b b1 _
        (record {
          same_lwip = refl;
          addresses = refl;
          ipv4_dns = ground (arith, append-nil b.pending.ipv4_dns);
          ipv6_dns = ground (arith, append-nil b.pending.ipv6_dns);
          last_mtu = refl;
        })
        (tun_calls-Extends cs b1)
  tun_calls-Extends (set_mtu mtu ∷ cs) b =
      let b1 = tun_builder_set_mtu n mtu b in
      more_told [] (addresses_in cs) [] (dns_in cs) mtu _ b b1 _
        (record {
          same_lwip = refl;
          addresses = ground (arith, append-nil b.pending.addresses);
          ipv4_dns = ground (arith, append-nil b.pending.ipv4_dns);
          ipv6_dns = ground (arith, append-nil b.pending.ipv6_dns);
          last_mtu = refl;
        })
        (tun_calls-Extends cs b1)
  tun_calls-Extends (set_dns_options servers ∷ cs) b =
      let b1 = tun_builder_set_dns_options n servers b in
      let first = set_dns_options-Extends servers b in
      let rest = tun_calls-Extends cs b1 in
      rw (first.last_mtu) at (
        more_told [] (addresses_in cs) (joined servers) (dns_in cs) b.pending.mtu _ b b1 _ first
          rest)
  tun_calls-Extends (other call ∷ cs) b = tun_calls-Extends cs b

  -- What the calls behind tun_builder_new tell of the tunnel.
  abbrev pub told : List (TunCall n) → TunConfig
  told cs = record {
    addresses = addresses_in cs;
    ipv4_dns = of_family false (dns_in cs);
    ipv6_dns = of_family true (dns_in cs);
    mtu = mtu_in (pos 1500) cs;
  }

  pub tun_calls-told :
      (cs : List (TunCall n)) (b : Builder n)
      → let b' = tun_calls n cs (tun_builder_new n b) in (b'.lwip ≡ b.lwip) × (b'.pending ≡ told cs)
  unfolding tun_builder_new
  tun_calls-told cs b =
      let x = tun_calls-Extends cs (tun_builder_new n b) in
      (x.same_lwip, ground (arith, x.addresses, x.ipv4_dns, x.ipv6_dns, x.last_mtu))

  tun_builder_establish_lem :
      (b : Builder n)
      → let (b', answer) = tun_builder_establish n b in
        (b'.lwip.active_config ≡ b.pending)
        × (((answer ≡ pos 0) × (b'.lwip.has_output ≡ true))
            ⊎ ((answer ≡ negsuc 0) × (b'.lwip.has_output ≡ b.lwip.has_output)))
  unfolding tun_builder_establish apply_tun_config_and_output apply_tun_config
  tun_builder_establish_lem b = ground arith

  -- After tun_builder_new and any calls that tell of the tunnel, tun_builder_establish makes active
  -- what they told: the addresses in their order, the DNS servers in theirs, those with a colon
  -- apart, and the last MTU, or 1500. It answers 0 with the output of packets set, or -1 with the
  -- output as it was.
  pub tun_builder_establish-tun_calls :
      (cs : List (TunCall n)) (b : Builder n)
      → let (b', answer) = tun_builder_establish n (tun_calls n cs (tun_builder_new n b)) in
        (b'.lwip.active_config ≡ told cs)
        × (((answer ≡ pos 0) × (b'.lwip.has_output ≡ true))
            ⊎ ((answer ≡ negsuc 0) × (b'.lwip.has_output ≡ b.lwip.has_output)))
  tun_builder_establish-tun_calls cs b =
      let (same_lwip, same_config) = tun_calls-told cs b in
      let done = tun_builder_establish_lem (tun_calls n cs (tun_builder_new n b)) in
      (done.0 ∙ same_config, ground (arith, done.1, same_lwip))
