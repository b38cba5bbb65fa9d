-- ===== src/Runtime/Config.antt =====
-- apply_tun_config and dns_server, with parse_ip_addr and prefix_to_netmask.
use ovpn2ss.Common.{
  ℕ, ◌+◌, ◌-◌, ◌*◌, ◌/◌, ◌%◌, ◌^◌, ◌≤◌, ◌≡◌, refl, Bool, true, Option, none, some, Bytes, List, [],
  ◌∷◌, ltb, ◌==◌, if◌then◌else◌, is_empty, arith, le→ltb_false,
}
use ovpn2ss.Common.Int.{ℤ, pos, negsuc}
use ovpn2ss.Common.Bits.{failures, failures_lem}
use ovpn2ss.Common.Outcome.{Result, ok, err, bad_ip, bad_prefix, ◌>>=◌}
use ovpn2ss.Aead.Session.{or_throw}
use ovpn2ss.Runtime.Net.{Net}
use ovpn2ss.Runtime.State.{TunAddress, TunConfig, Runtime}

-- The bytes of a 32-bit number in network order: what lwip_htonl leaves in memory.
abbrev pub htonl : ℕ → Bytes
htonl v = (v / 2 ^ 24 % 256) ∷ (v / 2 ^ 16 % 256) ∷ (v / 2 ^ 8 % 256) ∷ (v % 256) ∷ []

unfoldable pub netmask : ℕ → ℕ
netmask prefix = if prefix == 0 then 0 else 0xffffffff * 2 ^ (32 - prefix) % 2 ^ 32

unfoldable pub prefix_to_netmask : ℤ → Result Bytes
unfolding netmask
prefix_to_netmask (negsuc i) = err bad_prefix
prefix_to_netmask (pos prefix) =
    if ltb 32 prefix then err bad_prefix else ok (htonl (netmask prefix))

abbrev pub mtu_of : ℤ → ℕ
mtu_of (negsuc i) = 1500
mtu_of (pos mtu) = if ltb 0 mtu then mtu % 2 ^ 16 else 1500

module _ (n : Net) where
  unfoldable pub parse_ip_addr : Bytes → Result n.Ip
  parse_ip_addr text = or_throw (n.ipaddr_aton text) bad_ip

  unfoldable pub parse_gateway : Bytes → Result (Option n.Ip)
  unfolding parse_ip_addr
  parse_gateway text = if is_empty text then ok none else do ip ← parse_ip_addr text; ok (some ip)

  -- A round of the loop over the addresses.
  unfoldable pub apply_address : TunAddress → n.State → Result n.State
  unfolding parse_gateway prefix_to_netmask
  apply_address t lwip = do
    ip ← parse_ip_addr t.address
    (if t.ipv6 then ok (n.netif_ip6_addr_set lwip ip) else do
      mask ← prefix_to_netmask t.prefix_length
      gateway ← parse_gateway t.gateway
      ok (n.netif_set_addr lwip ip mask gateway))

  -- The loop: the state that it leaves, and what a round threw.
  unfoldable pub apply_addresses : List TunAddress → n.State → n.State × Result (Unit {0})
  unfolding apply_address
  apply_addresses [] lwip = (lwip, ok tt)
  apply_addresses (t ∷ ts) lwip = elim (apply_address t lwip) [
    | err e ↦ (lwip, err e)
    | ok next ↦ apply_addresses ts next
  ]

  -- apply_tun_config, and apply_tun_config_locked.
  unfoldable pub apply_tun_config : TunConfig → Runtime n → Runtime n × Result (Unit {0})
  unfolding apply_addresses
  apply_tun_config config r =
      let (lwip, done) =
        apply_addresses config.addresses (n.netif_set_mtu r.lwip (mtu_of config.mtu)) in
      (record r { active_config = config; lwip = lwip }, done)

  abbrev pub set_packet_output : Bool → Runtime n → Runtime n
  set_packet_output output r = record r { has_output = output }

  unfoldable pub apply_tun_config_and_output : TunConfig → Runtime n → Runtime n × Result (Unit {0})
  unfolding apply_tun_config
  apply_tun_config_and_output config r = elim (apply_tun_config config r).1 [
    | err e ↦ ((apply_tun_config config r).0, err e)
    | ok done ↦ (set_packet_output true (apply_tun_config config r).0, ok done)
  ]

  abbrev first_of : List Bytes → List Bytes → Option Bytes
  first_of (x ∷ xs) ys = some x
  first_of [] (y ∷ ys) = some y
  first_of [] [] = none

  unfoldable pub dns_server : Runtime n → Result (Option n.Ip)
  unfolding parse_gateway
  dns_server r = elim (first_of r.active_config.ipv4_dns r.active_config.ipv6_dns) [
    | none ↦ ok none
    | some text ↦ do ip ← parse_ip_addr text; ok (some ip)
  ]

netmask_lem : (prefix : ℕ) → prefix ≤ 32 → netmask prefix + 2 ^ (32 - prefix) ≡ 2 ^ 32
unfolding netmask failures
netmask_lem prefix h =
    let holds =
      failures_lem (λ p. netmask p + 2 ^ (32 - p) == 2 ^ 32) 33 prefix (omega arith) refl in
    ground arith

-- The mask of a prefix of 0 to 32 bits is given in network order, and it is the number of all
-- addresses less that of the addresses in a network of that prefix: just so many bits are set, from
-- the top.
pub prefix_to_netmask_lem :
    (prefix : ℕ)
    → prefix ≤ 32
    → (mask : ℕ) × (prefix_to_netmask (pos prefix) ≡ ok (htonl mask))
      × (mask + 2 ^ (32 - prefix) ≡ 2 ^ 32)
unfolding prefix_to_netmask
prefix_to_netmask_lem prefix h =
    (netmask prefix, rw (le→ltb_false 32 prefix h, prefix_to_netmask) refl, netmask_lem prefix h)
