-- ===== src/Manager/Config.antt =====
-- ShadowsocksConfig, InstanceConfig and load_json_config.
use ovpn2ss.Common.{
  ℕ, ◌%◌, ◌^◌, Bool, true, false, not, ◌||◌, ◌&&◌, Bytes, List, [], ◌∷◌, ltb, ◌==◌, if◌then◌else◌,
  is_empty, codes, same,
}
use ovpn2ss.Common.Int.{ℤ, pos, negsuc}
use ovpn2ss.Common.Outcome.{
  Result, ok, err, ◌>>=◌, cannot_open_config, bad_json, instances_array_required, instance_required,
  object_required, non_empty_string_required, string_required, tcp_port_required, number_required,
  bad_port, no_ovpn_file, bad_method, duplicate_port,
}
use ovpn2ss.Aead.Session.{or_throw}
use ovpn2ss.Manager.Json.{Json}

pub record ShadowsocksConfig : Type 0 where
  pub listen_host : Bytes
  pub tcp_port : ℕ
  pub udp_port : ℕ
  pub method : Bytes
  pub password : Bytes

pub record InstanceConfig : Type 0 where
  pub name : Bytes
  pub ovpn_path : Bytes
  pub shadowsocks : ShadowsocksConfig
  pub udp_enabled : Bool
  pub vpn_username : Bytes
  pub vpn_password : Bytes

pub record ManagerConfig : Type 0 where
  pub json_path : Bytes
  pub instances : List InstanceConfig

unfoldable pub checked_port : ℤ → Result ℕ
checked_port (negsuc i) = err bad_port
checked_port (pos value) =
    if value == 0 || ltb 65535 value then err bad_port else ok (value % 2 ^ 16)

abbrev pub only_method : Bytes
only_method = codes "chacha20-ietf-poly1305"

-- Whether a port is in a std::set.
abbrev pub has : ℕ → List ℕ → Bool
has p [] = false
has p (x ∷ xs) = p == x || has p xs

-- Put into a std::set.
abbrev pub insert : ℕ → List ℕ → List ℕ
insert p ports = p ∷ ports

module _ (j : Json) where
  unfoldable pub required_string : j.Value → Bytes → Result Bytes
  required_string object key =
      if not (j.contains object key)
        || not (j.is_string (j.at object key))
        || is_empty (j.get_string (j.at object key))
      then err non_empty_string_required
      else ok (j.get_string (j.at object key))

  unfoldable pub optional_string : j.Value → Bytes → Bytes → Result Bytes
  optional_string object key fallback =
      if not (j.contains object key)
      then ok fallback
      else if not (j.is_string (j.at object key))
      then err string_required
      else ok (j.get_string (j.at object key))

  unfoldable pub port_at : j.Value → Bytes → Result ℕ
  unfolding checked_port
  port_at object key = do
    value ← or_throw (j.get_int (j.at object key)) number_required
    checked_port value

  unfoldable pub tcp_port_of : j.Value → Result ℕ
  unfolding port_at
  tcp_port_of object =
      if not (j.contains object (codes "tcp_port"))
        || not (j.is_number_integer (j.at object (codes "tcp_port")))
      then err tcp_port_required
      else port_at object (codes "tcp_port")

  unfoldable pub udp_port_of : j.Value → ℕ → Result ℕ
  unfolding port_at
  udp_port_of object tcp_port =
      if j.contains object (codes "udp_port")
      then port_at object (codes "udp_port")
      else ok tcp_port

  -- The members of an instance, in the order in which they are read.
  unfoldable pub read_instance : j.Value → Result InstanceConfig
  unfolding required_string optional_string tcp_port_of udp_port_of
  read_instance object = do
    name ← required_string object (codes "name")
    ovpn_path ← required_string object (codes "ovpn")
    listen_host ← optional_string object (codes "listen_host") (codes "127.0.0.1")
    tcp_port ← tcp_port_of object
    udp_port ← udp_port_of object tcp_port
    method ← optional_string object (codes "method") only_method
    password ← required_string object (codes "password")
    vpn_username ← optional_string object (codes "vpn_username") []
    vpn_password ← optional_string object (codes "vpn_password") []
    ok (record {
      name = name;
      ovpn_path = ovpn_path;
      shadowsocks = record {
        listen_host = listen_host;
        tcp_port = tcp_port;
        udp_port = udp_port;
        method = method;
        password = password;
      };
      udp_enabled = true;
      vpn_username = vpn_username;
      vpn_password = vpn_password;
    })

  -- What is asked of an instance that was read, with the ports so far.
  unfoldable pub check_instance : InstanceConfig → List ℕ → List ℕ → Result (Unit {0})
  unfolding same
  check_instance i tcp_ports udp_ports =
      if not (j.is_regular_file i.ovpn_path)
      then err no_ovpn_file
      else if not (same i.shadowsocks.method only_method)
      then err bad_method
      else if has i.shadowsocks.tcp_port tcp_ports
          || (not (i.shadowsocks.udp_port == 0) && has i.shadowsocks.udp_port udp_ports)
      then err duplicate_port
      else ok tt

  -- The loop over the entries.
  unfoldable pub read_instances : List j.Value → List ℕ → List ℕ → Result (List InstanceConfig)
  unfolding read_instance check_instance
  read_instances [] tcp_ports udp_ports = ok []
  read_instances (object ∷ objects) tcp_ports udp_ports =
      if not (j.is_object object) then err object_required else do
        i ← read_instance object
        done ← check_instance i tcp_ports udp_ports
        more ←
            read_instances objects (insert i.shadowsocks.tcp_port tcp_ports)
              (insert i.shadowsocks.udp_port udp_ports)
        ok (i ∷ more)

  unfoldable pub load_json : j.Value → Result (List InstanceConfig)
  unfolding read_instances
  load_json json =
      if not (j.contains json (codes "instances"))
        || not (j.is_array (j.at json (codes "instances")))
      then err instances_array_required
      else if is_empty (j.elements (j.at json (codes "instances")))
      then err instance_required
      else read_instances (j.elements (j.at json (codes "instances"))) [] []

  unfoldable pub load_json_config : Bytes → Result ManagerConfig
  unfolding load_json
  load_json_config path = do
    text ← or_throw (j.read_file path) cannot_open_config
    json ← or_throw (j.parse text) bad_json
    instances ← load_json json
    ok (record { json_path = path; instances = instances })
