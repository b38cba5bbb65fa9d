-- ===== src/OpenVpn/TunBuilder.antt =====
-- src/OpenVpnTunBuilder.cpp: the calls by which the OpenVPN core tells of the tunnel.
use ovpn2ss.Common.{Bool, false, ◌||◌, Bytes, List, [], ◌∷◌, ◌++◌, ◌==◌, if◌then◌else◌}
use ovpn2ss.Common.Int.{ℤ, pos, negsuc}
use ovpn2ss.Common.Outcome.{ok, err}
use ovpn2ss.Runtime.Net.{Net}
use ovpn2ss.Runtime.State.{TunAddress, TunConfig, no_config, Runtime}
use ovpn2ss.Runtime.Config.{apply_tun_config_and_output, set_packet_output}

-- Whether address.find(':') finds one.
abbrev pub has_colon : Bytes → Bool
has_colon [] = false
has_colon (c ∷ cs) = c == 58 || has_colon cs

-- The methods that return true and leave all as it is.
pub data OtherCall : Type 0 where
  add_route reroute_gw exclude_route set_remote_address set_session_name : OtherCall
  add_proxy_bypass set_proxy_auto_config_url set_proxy_http set_proxy_https : OtherCall

module _ (n : Net) where
  pub record Builder : Type 0 where
    pub lwip : Runtime n
    pub pending : TunConfig

  unfoldable pub tun_builder_new : Builder → Builder
  tun_builder_new b = record b { pending = no_config }

  -- What it returns, 0 or -1, with what is left.
  unfoldable pub tun_builder_establish : Builder → Builder × ℤ
  tun_builder_establish b =
      let (lwip, done) = apply_tun_config_and_output n b.pending b.lwip in
      elim done [
        | ok u ↦ (record b { lwip = lwip }, pos 0)
        | err e ↦ (record b { lwip = lwip }, negsuc 0)
      ]

  unfoldable pub tun_builder_add_address : TunAddress → Builder → Builder
  tun_builder_add_address t b = record b {
    pending = record b.pending { addresses = b.pending.addresses ++ t ∷ [] };
  }

  unfoldable pub tun_builder_set_mtu : ℤ → Builder → Builder
  tun_builder_set_mtu mtu b = record b { pending = record b.pending { mtu = mtu } }

  unfoldable pub tun_builder_add_dns_server : Bytes → Bool → Builder → Builder
  tun_builder_add_dns_server address ipv6 b =
      if ipv6
      then record b { pending = record b.pending { ipv6_dns = b.pending.ipv6_dns ++ address ∷ [] } }
      else record b { pending = record b.pending { ipv4_dns = b.pending.ipv4_dns ++ address ∷ [] } }

  -- The loop over the addresses of a server.
  unfoldable pub add_addresses : List Bytes → Builder → Builder
  unfolding tun_builder_add_dns_server
  add_addresses [] b = b
  add_addresses (a ∷ more) b = add_addresses more (tun_builder_add_dns_server a (has_colon a) b)

  -- `servers` are the addresses of each server, in the order of the map.
  unfoldable pub tun_builder_set_dns_options : List (List Bytes) → Builder → Builder
  unfolding add_addresses
  tun_builder_set_dns_options [] b = b
  tun_builder_set_dns_options (s ∷ servers) b =
      tun_builder_set_dns_options servers (add_addresses s b)

  abbrev pub tun_builder_teardown : Builder → Builder
  tun_builder_teardown b = record b { lwip = set_packet_output n false b.lwip }

  -- The calls that tell of the tunnel.
  pub data TunCall : Type 0 where
    add_address : TunAddress → TunCall
    set_mtu : ℤ → TunCall
    set_dns_options : List (List Bytes) → TunCall
    other : OtherCall → TunCall

  unfoldable pub tun_call : TunCall → Builder → Builder
  unfolding tun_builder_add_address tun_builder_set_mtu tun_builder_set_dns_options
  tun_call (add_address t) b = tun_builder_add_address t b
  tun_call (set_mtu mtu) b = tun_builder_set_mtu mtu b
  tun_call (set_dns_options servers) b = tun_builder_set_dns_options servers b
  tun_call (other call) b = b

  unfoldable pub tun_calls : List TunCall → Builder → Builder
  unfolding tun_call
  tun_calls [] b = b
  tun_calls (c ∷ cs) b = tun_calls cs (tun_call c b)
