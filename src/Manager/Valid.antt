-- ===== src/Manager/Valid.antt =====
-- What holds of every configuration that load_json_config accepts.
use ovpn2ss.Common.{
  ℕ, ◌<◌, ◌≡◌, ◌∙◌, refl, inl, inr, true, false, not, Bytes, List, [], ◌∷◌, ◌==◌, is_empty, codes,
  same, same_sound, All, arith, Bool-cases, Option-cases,
}
use ovpn2ss.Common.Int.{ℤ, pos, negsuc}
use ovpn2ss.Common.Outcome.{ok, bind_ok, cannot_open_config, bad_json}
use ovpn2ss.Aead.Session.{or_throw}
use ovpn2ss.Manager.Json.{Json}
use ovpn2ss.Manager.Config.{
  InstanceConfig, ManagerConfig, checked_port, only_method, has, insert, required_string,
  optional_string, port_at, tcp_port_of, udp_port_of, read_instance, check_instance, read_instances,
  load_json, load_json_config,
}

-- An instance that can be started.
pub record IsInstance (i : InstanceConfig) : Type 0 where
  pub named : is_empty i.name ≡ false
  pub has_ovpn : is_empty i.ovpn_path ≡ false
  pub has_password : is_empty i.shadowsocks.password ≡ false
  pub tcp_positive : 0 < i.shadowsocks.tcp_port
  pub tcp_fits : i.shadowsocks.tcp_port < 65536
  pub udp_positive : 0 < i.shadowsocks.udp_port
  pub udp_fits : i.shadowsocks.udp_port < 65536

-- The ports are none of those seen and differ from each other.
abbrev pub AreNew : List ℕ → List ℕ → Type 0
AreNew seen [] = Unit {0}
AreNew seen (p ∷ ps) = (has p seen ≡ false) × AreNew (p ∷ seen) ps

abbrev pub tcp_ports_of : List InstanceConfig → List ℕ
tcp_ports_of [] = []
tcp_ports_of (i ∷ is) = i.shadowsocks.tcp_port ∷ tcp_ports_of is

abbrev pub udp_ports_of : List InstanceConfig → List ℕ
udp_ports_of [] = []
udp_ports_of (i ∷ is) = i.shadowsocks.udp_port ∷ udp_ports_of is

checked_port_lem : (v : ℤ) (p : ℕ) → checked_port v ≡ ok p → (0 < p) × (p < 65536)
unfolding checked_port
checked_port_lem (negsuc i) p e = ground arith
checked_port_lem (pos v) p e = ground arith

module _ (j : Json) where
  required_string_lem :
      (o : j.Value) (k s : Bytes) → required_string j o k ≡ ok s → is_empty s ≡ false
  unfolding required_string
  required_string_lem o k s e = ground arith

  port_at_lem : (o : j.Value) (k : Bytes) (p : ℕ) → port_at j o k ≡ ok p → (0 < p) × (p < 65536)
  unfolding port_at
  port_at_lem o k p e = elim (Option-cases (j.get_int (j.at o k))) [
    | inl n ↦ ground arith
    | inr (v, n) ↦ checked_port_lem v p (ground arith)
  ]

  tcp_port_of_lem : (o : j.Value) (p : ℕ) → tcp_port_of j o ≡ ok p → (0 < p) × (p < 65536)
  unfolding tcp_port_of
  tcp_port_of_lem o p e = port_at_lem o (codes "tcp_port") p (ground arith)

  udp_port_of_lem :
      (o : j.Value) (t p : ℕ)
      → (0 < t) × (t < 65536)
      → udp_port_of j o t ≡ ok p
      → (0 < p) × (p < 65536)
  unfolding udp_port_of
  udp_port_of_lem o t p h e = elim (Bool-cases (j.contains o (codes "udp_port"))) [
    | inl c ↦ port_at_lem o (codes "udp_port") p (ground arith)
    | inr c ↦ ground arith
  ]

  read_instance-IsInstance :
      (o : j.Value) (i : InstanceConfig) → read_instance j o ≡ ok i → IsInstance i
  unfolding read_instance
  read_instance-IsInstance o i e =
      let (name, e1, r1) = bind_ok (required_string j o (codes "name")) _ i e in
      let (ovpn, e2, r2) = bind_ok (required_string j o (codes "ovpn")) _ i r1 in
      let (listen, e3, r3) =
        bind_ok (optional_string j o (codes "listen_host") (codes "127.0.0.1")) _ i r2 in
      let (tcp, e4, r4) = bind_ok (tcp_port_of j o) _ i r3 in
      let (udp, e5, r5) = bind_ok (udp_port_of j o tcp) _ i r4 in
      let (method, e6, r6) = bind_ok (optional_string j o (codes "method") only_method) _ i r5 in
      let (password, e7, r7) = bind_ok (required_string j o (codes "password")) _ i r6 in
      let (user, e8, r8) = bind_ok (optional_string j o (codes "vpn_username") []) _ i r7 in
      let (pass, e9, r9) = bind_ok (optional_string j o (codes "vpn_password") []) _ i r8 in
      let tcp_fits = tcp_port_of_lem o tcp e4 in
      let udp_fits = udp_port_of_lem o tcp udp tcp_fits e5 in
      record {
        named = ground (arith, required_string_lem o (codes "name") name e1);
        has_ovpn = ground (arith, required_string_lem o (codes "ovpn") ovpn e2);
        has_password = ground (arith, required_string_lem o (codes "password") password e7);
        tcp_positive = ground arith;
        tcp_fits = ground arith;
        udp_positive = ground arith;
        udp_fits = ground arith;
      }

  check_instance_lem :
      (i : InstanceConfig) (tcps udps : List ℕ) (u : Unit {0})
      → IsInstance i
      → check_instance j i tcps udps ≡ ok u
      → (has i.shadowsocks.tcp_port tcps ≡ false)
        × (has i.shadowsocks.udp_port udps ≡ false)
        × (i.shadowsocks.method ≡ only_method)
        × (j.is_regular_file i.ovpn_path ≡ true)
  unfolding check_instance
  check_instance_lem i tcps udps u v e =
      let positive : (i.shadowsocks.udp_port == 0) ≡ false = ground (arith, v.udp_positive) in
      let method : same i.shadowsocks.method only_method ≡ true = ground arith in
      (ground arith, ground arith, same_sound _ _ method, ground arith)

  -- What was asked of an accepted instance.
  pub record IsAccepted (i : InstanceConfig) : Type 0 where
    pub instance_is : IsInstance i
    pub method_is : i.shadowsocks.method ≡ only_method
    pub file_is : j.is_regular_file i.ovpn_path ≡ true

  read_instances_lem :
      (os : List j.Value) (tcps udps : List ℕ) (is : List InstanceConfig)
      → read_instances j os tcps udps ≡ ok is
      → All IsAccepted is × AreNew tcps (tcp_ports_of is) × AreNew udps (udp_ports_of is)
  unfolding read_instances
  read_instances_lem [] tcps udps is e =
      let none_left : is ≡ [] = ground arith in rw none_left (tt, tt, tt)
  read_instances_lem (o ∷ os) tcps udps is e = elim (Bool-cases (not (j.is_object o))) [
    | inl a ↦ ground arith
    | inr a ↦
        let (i, e1, r1) = bind_ok (read_instance j o) _ is (rw (a, read_instances) at e) in
        let (u, e2, r2) = bind_ok (check_instance j i tcps udps) _ is r1 in
        let (more, e3, r3) =
          bind_ok
            (read_instances j os (insert i.shadowsocks.tcp_port tcps)
              (insert i.shadowsocks.udp_port udps))
            _ is r2 in
        let v = read_instance-IsInstance o i e1 in
        let (new_tcp, new_udp, method, file) = check_instance_lem i tcps udps u v e2 in
        let (accepted, tcp_rest, udp_rest) = read_instances_lem os _ _ more e3 in
        let whole : is ≡ i ∷ more = ground arith in
        rw whole (
          (record { instance_is = v; method_is = method; file_is = file }, accepted),
          (new_tcp, tcp_rest),
          (new_udp, udp_rest),
        )
  ]

  -- A configuration that can be started.
  pub record IsValid (config : ManagerConfig) : Type 0 where
    pub some_instance : is_empty config.instances ≡ false
    pub accepted : All IsAccepted config.instances
    pub tcp_ports : AreNew [] (tcp_ports_of config.instances)
    pub udp_ports : AreNew [] (udp_ports_of config.instances)

  read_instances-is_empty :
      (os : List j.Value) (tcps udps : List ℕ) (is : List InstanceConfig)
      → read_instances j os tcps udps ≡ ok is
      → is_empty is ≡ is_empty os
  unfolding read_instances
  read_instances-is_empty [] tcps udps is e = ground arith
  read_instances-is_empty (o ∷ os) tcps udps [] e = elim (Bool-cases (not (j.is_object o))) [
    | inl a ↦ ground arith
    | inr a ↦
        let (i, e1, r1) = bind_ok (read_instance j o) _ [] (rw (a, read_instances) at e) in
        let (u, e2, r2) = bind_ok (check_instance j i tcps udps) _ [] r1 in
        let (more, e3, r3) =
          bind_ok
            (read_instances j os (insert i.shadowsocks.tcp_port tcps)
              (insert i.shadowsocks.udp_port udps))
            _ [] r2 in
        ground arith
  ]
  read_instances-is_empty (o ∷ os) tcps udps (i ∷ is) e = refl

  -- Every configuration that load_json_config accepts has an instance. Each instance has a name, a
  -- file and a password that are not empty, ports from 1 to 65535 and the one method, and its file
  -- exists. No two instances have the same TCP port, and no two the same UDP port.
  pub load_json_config-IsValid :
      (path : Bytes) (config : ManagerConfig) → load_json_config j path ≡ ok config → IsValid config
  unfolding load_json_config load_json
  load_json_config-IsValid path config e =
      let (text, e1, r1) = bind_ok (or_throw (j.read_file path) cannot_open_config) _ config e in
      let (json, e2, r2) = bind_ok (or_throw (j.parse text) bad_json) _ config r1 in
      let (is, e3, r3) = bind_ok (load_json j json) _ config r2 in
      let os = j.elements (j.at json (codes "instances")) in
      let loop : read_instances j os [] [] ≡ ok is = ground arith in
      let full : is_empty os ≡ false = ground arith in
      let same_is : is ≡ config.instances = ground arith in
      let (accepted, tcp, udp) = read_instances_lem os [] [] is loop in
      record {
        some_instance = rw (← same_is) (read_instances-is_empty os [] [] is loop ∙ full);
        accepted = rw (← same_is) accepted;
        tcp_ports = rw (← same_is) tcp;
        udp_ports = rw (← same_is) udp;
      }
