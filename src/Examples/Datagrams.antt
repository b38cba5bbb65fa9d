-- ===== src/Examples/Datagrams.antt =====
-- A UdpRelaySession of src/UdpRelaySession.cpp that runs on the small cipher.
use ovpn2ss.Common.{arith, same, ℕ, ◌≡◌, refl, some, true, Bytes, [], ◌∷◌, ◌++◌, codes, replicate}
use ovpn2ss.Common.Outcome.{ok}
use ovpn2ss.Aead.Nonce.{increment_nonce}
use ovpn2ss.Aead.Session.{
  Session, make_session, client_salt, derive_subkey, crypt, encrypt_udp_packet, decrypt_udp_packet,
}
use ovpn2ss.Address.{TargetAddress, ipv6, encode_ss_address, parse_ss_address}
use ovpn2ss.Address.SameTarget.{SameTarget}
use ovpn2ss.UdpRelay.State.{Relay, init, mapping_key}
use ovpn2ss.UdpRelay.Mappings.{new_mapping, mapping_for}
use ovpn2ss.UdpRelay.Sending.{send_payload_to_ip, send_to_lwip, send_to_client}
use ovpn2ss.UdpRelay.Events.{started, received, step, Reached, here, more}
use ovpn2ss.UdpRelay.Table.{IsSound}
use ovpn2ss.UdpRelay.Accounting.{Reached-IsSound}
use ovpn2ss.UdpRelay.Delivery.{send_to_lwip-encrypt_udp_packet, send_to_client-decrypt_udp_packet}
use ovpn2ss.Examples.Toy.{toy, toy-IsCrypto, toy_stack}
use ovpn2ss.Examples.ToyAsio.{
  toy_asio, toy_asio-IsAsio, toy_asio-GivesBytes, short_v6, short_v6_bytes,
}
use ovpn2ss.Examples.Sessions.{key, salt, hello}
use ovpn2ss.Examples.Addresses.{v4_target, v4_target-IsTarget}

abbrev pub client : Bytes × ℕ
client = (codes "10.0.0.9", 5353)

abbrev front : Bytes
front = 1 ∷ 127 ∷ 0 ∷ 0 ∷ 1 ∷ 1 ∷ 187 ∷ []

abbrev pub datagram : Bytes
datagram = salt ++ ((front ++ hello) ++ (9 ∷ 8 ∷ 115 ∷ 101 ∷ replicate 12 0))

abbrev sealed_by : Session
sealed_by = record (make_session key) {
  send_key = 9 ∷ 8 ∷ 115 ∷ 101 ∷ replicate 28 0;
  send_nonce = 1 ∷ replicate 11 0;
  sent_salt = true;
}

abbrev fresh : Relay toy_stack
fresh = init toy_stack key 1

-- The session is started and has had a datagram.
abbrev running : Relay toy_stack
running =
    step toy toy_asio toy_stack (received (some (datagram, client)))
      (step toy toy_asio toy_stack started fresh)

running-Reached : Reached toy toy_asio toy_stack fresh running
running-Reached =
    more {r = step toy toy_asio toy_stack started fresh} (received (some (datagram, client)))
      (more {r = fresh} started (here refl) refl) refl

key_text : mapping_key toy_stack client v4_target ≡ codes "10.0.0.9:5353|127.0.0.1:443"
unfolding mapping_key
key_text = refl

front_encoded : encode_ss_address toy_asio v4_target ≡ ok front
unfolding encode_ss_address
front_encoded = refl

datagram_sealed :
    encrypt_udp_packet toy (some salt) (front ++ hello) (make_session key)
    ≡ (sealed_by, ok datagram)
unfolding encrypt_udp_packet client_salt derive_subkey crypt increment_nonce
datagram_sealed = refl

Reached-IsSound_example : IsSound toy_stack running
Reached-IsSound_example = Reached-IsSound toy toy_asio toy_stack key 1 running running-Reached

send_to_lwip-encrypt_udp_packet_example :
    send_to_lwip toy toy_stack datagram client fresh
    ≡ send_payload_to_ip toy_stack hello client v4_target (codes "127.0.0.1") fresh
send_to_lwip-encrypt_udp_packet_example =
    send_to_lwip-encrypt_udp_packet toy toy_asio toy_stack salt front hello datagram v4_target
      (codes "127.0.0.1") client sealed_by fresh toy-IsCrypto toy_asio-IsAsio v4_target-IsTarget
      refl refl front_encoded refl datagram_sealed

abbrev v6_target : TargetAddress
v6_target = record { type = ipv6; host = codes "2001:0db8::1"; port = 443 }

abbrev answer : Bytes
answer =
    salt
    ++ (((4 ∷ (short_v6_bytes ++ 1 ∷ 187 ∷ [])) ++ hello) ++ (9 ∷ 8 ∷ 115 ∷ 101 ∷ replicate 12 0))

-- lwIP writes the address that the payload comes from in short.
answered :
    send_to_client toy toy_asio toy_stack
      (some salt)
      (new_mapping toy_stack client v6_target 1)
      hello
      short_v6
      443
      fresh
    ≡ (record fresh { sent = (client, answer) ∷ [] }, ok tt)
unfolding send_to_client encode_ss_address encrypt_udp_packet client_salt derive_subkey crypt
    increment_nonce same
answered = refl

send_to_client-decrypt_udp_packet_example :
    (out plain : Bytes) × (t : TargetAddress) × ((record fresh {
      sent = (client, answer) ∷ [];
    }).sent
      ≡ fresh.sent ++ (client, out) ∷ [])
    × (decrypt_udp_packet toy out (make_session key) ≡ ok (some plain))
    × (parse_ss_address plain ≡ (some t, hello))
    × SameTarget toy_asio (record { type = ipv6; host = short_v6; port = 443 }) t
send_to_client-decrypt_udp_packet_example =
    send_to_client-decrypt_udp_packet toy toy_asio toy_stack salt hello
      (new_mapping toy_stack client v6_target 1) short_v6 443 fresh
      (record fresh { sent = (client, answer) ∷ [] }) toy-IsCrypto toy_asio-IsAsio
      toy_asio-GivesBytes (omega arith) refl answered

mapped : mapping_for toy_stack client v4_target fresh ≡ (
  record fresh {
    lwip = 2;
    mappings = new_mapping toy_stack client v4_target 1 ∷ [];
    made = 1 ∷ [];
  },
  ok (new_mapping toy_stack client v4_target 1),
)
unfolding mapping_for
mapped = refl
