-- ===== src/UdpRelay/Delivery.antt =====
-- What a client seals reaches its target, what comes back reaches the client, and a mapping is kept.
use ovpn2ss.Common.{
  ℕ, ◌<◌, ◌≡◌, refl, sym, ap, ◌∙◌, inl, inr, true, false, none, some, Bytes, List, [], ◌∷◌, ◌++◌,
  length, same, same_self, arith, Option-cases,
}
use ovpn2ss.Common.Outcome.{ok, Result-cases}
use ovpn2ss.Aead.Crypto.{Crypto, IsCrypto}
use ovpn2ss.Aead.Session.{Session, make_session, encrypt_udp_packet, decrypt_udp_packet}
use ovpn2ss.Aead.UdpPacket.{decrypt_udp_packet-encrypt_udp_packet}
use ovpn2ss.Address.{TargetAddress, Asio, is_domain, parse_ss_address, encode_ss_address}
use ovpn2ss.Address.RoundTrip.{IsAsio, IsTarget, parse_ss_address-encode_ss_address}
use ovpn2ss.Address.SameTarget.{GivesBytes, SameTarget, parse_ss_address-SameTarget}
use ovpn2ss.UdpRelay.Stack.{Stack}
use ovpn2ss.UdpRelay.State.{Mapping, Relay, mapping_key}
use ovpn2ss.UdpRelay.Mappings.{find, new_mapping, mapping_for}
use ovpn2ss.UdpRelay.Sending.{dispatch, send_payload_to_ip, send_to_lwip, sender_of, send_to_client}

module _ (a : Asio) where
  -- What is encoded is read back, whatever follows.
  reads_back :
      (t : TargetAddress) (front rest : Bytes)
      → IsAsio a
      → IsTarget t
      → encode_ss_address a t ≡ ok front
      → parse_ss_address (front ++ rest) ≡ (some t, rest)
  reads_back t front rest v k e =
      let (out, enc, dec) = parse_ss_address-encode_ss_address a t rest v k in
      let is : out ≡ front = ground arith in rw (← is) dec

module _ (c : Crypto) (a : Asio) (u : Stack) where
  -- A datagram that is sealed under a salt of 32 bytes with the session's password, and that has
  -- the encoding of an IP address target in front of its payload, is opened and parsed to just
  -- that: the session sends that payload to that target's address for that client. The cipher and
  -- Asio keep their laws, and lwIP reads the target's text.
  pub send_to_lwip-encrypt_udp_packet :
      (salt front payload datagram : Bytes) (t : TargetAddress) (ip : u.Ip) (client : u.Endpoint)
      (s : Session) (r : Relay u)
      → IsCrypto c
      → IsAsio a
      → IsTarget t
      → is_domain t.type ≡ false
      → u.ipaddr_aton t.host ≡ some ip
      → encode_ss_address a t ≡ ok front
      → length salt ≡ 32
      → encrypt_udp_packet c (some salt) (front ++ payload) (make_session r.master_key)
        ≡ (s, ok datagram)
      → send_to_lwip c u datagram client r ≡ send_payload_to_ip u payload client t ip r
  unfolding send_to_lwip dispatch
  send_to_lwip-encrypt_udp_packet salt front payload datagram t ip client s r v w k d i e h sealed =
      let opens =
        decrypt_udp_packet-encrypt_udp_packet c salt (front ++ payload) datagram
          (make_session r.master_key) s (make_session r.master_key) v h refl sealed in
      rw (opens, send_to_lwip, reads_back a t front payload w k e, d, i, dispatch) refl

  sender_of-port : (m : Mapping u) (ip : u.Ip) (port : ℕ) → (sender_of c a u m ip port).port ≡ port
  sender_of-port m ip port = ground arith

  -- When a payload that came back is sent to the client without an error, with a salt of 32 bytes,
  -- one datagram is sent, to the client of the mapping. Whoever has the password opens it to an
  -- address and the payload. That address has the type and the port of the sender that the session
  -- names: the target's name with the port that the payload came from, if the target is a name, and
  -- otherwise the address that the payload came from. Its host is that name, or a text that Asio
  -- reads as the same IP address as the text that lwIP writes of it, which may be any text of the
  -- address. The cipher keeps its laws, Asio reads back the texts that the parser writes and gives
  -- 4 or 16 bytes for an address, and the port is one of 16 bits.
  pub send_to_client-decrypt_udp_packet :
      (salt payload : Bytes) (m : Mapping u) (ip : u.Ip) (port : ℕ) (r r' : Relay u)
      → IsCrypto c
      → IsAsio a
      → GivesBytes a
      → port < 65536
      → length salt ≡ 32
      → send_to_client c a u (some salt) m payload ip port r ≡ (r', ok tt)
      → (out plain : Bytes) × (t : TargetAddress) × (r'.sent ≡ r.sent ++ (m.client, out) ∷ [])
        × (decrypt_udp_packet c out (make_session r.master_key) ≡ ok (some plain))
        × (parse_ss_address plain ≡ (some t, payload))
        × SameTarget a (sender_of c a u m ip port) t
  unfolding send_to_client
  send_to_client-decrypt_udp_packet salt payload m ip port r r' v w g p h e =
      let sender = sender_of c a u m ip port in
      elim (Result-cases (encode_ss_address a sender)) [
        | inr (x, f) ↦ ground arith
        | inl (front, f) ↦
            let sealing =
              encrypt_udp_packet c (some salt) (front ++ payload) (make_session r.master_key) in
            elim (Result-cases sealing.1) [
              | inr (x, d) ↦ ground arith
              | inl (out, d) ↦
                  let whole : sealing ≡ (sealing.0, ok out) = ap (λ x. (sealing.0, x)) d in
                  let low : sender.port < 65536 = rw (sender_of-port m ip port) p in
                  let (t, parsed, same) =
                    parse_ss_address-SameTarget a sender front payload w g low f in
                  (
                    out,
                    front ++ payload,
                    t,
                    ground arith,
                    decrypt_udp_packet-encrypt_udp_packet c salt (front ++ payload) out
                        (make_session r.master_key) sealing.0 (make_session r.master_key) v h refl
                        whole,
                    parsed,
                    same,
                  )
            ]
      ]

module _ (u : Stack) where
  find_found :
      (key : Bytes) (ms : List (Mapping u)) (m : Mapping u)
      → find u key ms ≡ none
      → m.key ≡ key
      → find u key (ms ++ m ∷ []) ≡ some m
  unfolding find
  find_found key [] m e k =
      let hit : same m.key key ≡ true = ap (same m.key) (sym k) ∙ same_self m.key in
      rw (hit, find) refl
  find_found key (x ∷ ms) m e k = ground (arith, find_found key ms m)

  -- A client and a target that were given a mapping are given the same one again, and nothing else
  -- changes.
  pub mapping_for_again :
      (client : u.Endpoint) (t : TargetAddress) (m : Mapping u) (r r' : Relay u)
      → mapping_for u client t r ≡ (r', ok m)
      → mapping_for u client t r' ≡ (r', ok m)
  unfolding mapping_for
  mapping_for_again client t m r r' e =
      elim (Option-cases (find u (mapping_key u client t) r.mappings)) [
        | inr (m', f) ↦
            let same_relay : r ≡ r' = ground arith in
            ap (mapping_for u client t) (sym same_relay) ∙ e
        | inl f ↦ elim (Option-cases (u.udp_new_pcb r.lwip).0) [
          | inl n ↦ ground arith
          | inr (p, n) ↦
              let table : r'.mappings ≡ r.mappings ++ new_mapping u client t p ∷ [] =
                ground arith in
              let is : new_mapping u client t p ≡ m = ground arith in
              let found =
                find_found (mapping_key u client t) r.mappings (new_mapping u client t p) f refl in
              let hit = ap (find u (mapping_key u client t)) table ∙ found ∙ ap some is in
              rw (hit, mapping_for) refl
        ]
      ]
