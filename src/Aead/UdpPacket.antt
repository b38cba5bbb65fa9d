-- ===== src/Aead/UdpPacket.antt =====
-- encrypt_udp_packet and decrypt_udp_packet: one packet under a salt of its own.
use ovpn2ss.Common.{
  ℕ, ◌+◌, ◌-◌, ◌<◌, ◌≡◌, refl, sym, ap, ◌∙◌, none, some, inl, inr, Bytes, ◌++◌, length, take, drop,
  arith, length-append, take-append, drop-append, take_all, drop-drop, le→ltb_false, lt→ltb,
}
use ovpn2ss.Common.Outcome.{ok, Result-cases}
use ovpn2ss.Aead.Crypto.{Crypto, IsCrypto}
use ovpn2ss.Aead.Session.{
  Session, derive_subkey, crypt, zero_nonce, client_salt, encrypt_udp_packet, decrypt_udp_packet,
  open_packet,
}
use ovpn2ss.Aead.TcpChunk.{Sealed, crypt-Sealed}

module _ (c : Crypto) where
  -- What is known of a call of `encrypt_udp_packet` that did not throw.
  record Packet (salt plain out : Bytes) (s s' : Session) : Type 0 where
    key : Bytes
    cipher : Bytes
    tag : Bytes
    derived : derive_subkey c salt s.master_key ≡ ok key
    sealed : Sealed c key zero_nonce plain s'.send_nonce cipher tag
    out_is : out ≡ salt ++ (cipher ++ tag)

  encrypt_udp_packet-Packet :
      (salt plain out : Bytes) (s s' : Session)
      → IsCrypto c
      → encrypt_udp_packet c (some salt) plain s ≡ (s', ok out)
      → Packet salt plain out s s'
  unfolding encrypt_udp_packet client_salt
  encrypt_udp_packet-Packet salt plain out s s' v e =
      elim (Result-cases (derive_subkey c salt s.master_key)) [
        | inr (x, a) ↦ ground (arith)
        | inl (key, a) ↦ elim (Result-cases (crypt c key zero_nonce plain)) [
          | inr (x, b) ↦ ground (arith)
          | inl ((n, cipher, tag), b) ↦ record {
            key = key;
            cipher = cipher;
            tag = tag;
            derived = a;
            sealed = crypt-Sealed c _ _ _ _ _ _ v (ground arith);
            out_is = ground arith;
          }
        ]
      ]

  -- A packet shorter than a salt and a tag is dropped, with no error.
  pub decrypt_udp_packet_short :
      (encrypted : Bytes) (r : Session)
      → length encrypted < 48
      → decrypt_udp_packet c encrypted r ≡ ok none
  unfolding decrypt_udp_packet
  decrypt_udp_packet_short encrypted r h = rw (lt→ltb (length encrypted) 48 h)

  open_packet-cuts :
      (n : ℕ) (packet key nonce plain cipher tag : Bytes)
      → take n (drop 32 packet) ≡ cipher
      → take 16 (drop (32 + n) packet) ≡ tag
      → Sealed c key zero_nonce plain nonce cipher tag
      → open_packet c n key packet ≡ some plain
  unfolding open_packet
  open_packet-cuts n packet key nonce plain cipher tag a b k = rw (a, b, k.opens, open_packet)

  open_packet-Sealed :
      (salt key nonce plain cipher tag : Bytes)
      → length salt ≡ 32
      → Sealed c key zero_nonce plain nonce cipher tag
      → open_packet c (length plain) key (salt ++ (cipher ++ tag)) ≡ some plain
  open_packet-Sealed salt key nonce plain cipher tag h k =
      let packet = salt ++ (cipher ++ tag) in
      let tail = drop-append 32 salt (cipher ++ tag) h in
      open_packet-cuts (length plain) packet key nonce plain cipher tag
        (ap (take (length plain)) tail ∙ take-append (length plain) cipher tag k.length-cipher)
        (ap (take 16) (
            sym (drop-drop 32 (length plain) _ packet refl)
            ∙ ap (drop (length plain)) tail
            ∙ drop-append (length plain) cipher tag k.length-cipher)
          ∙ take_all 16 tag k.length-tag)
        k

  -- With a cipher that keeps its laws, whatever packet one session seals without an error under a
  -- salt of 32 bytes, every session with the same master key opens to the same bytes.
  pub decrypt_udp_packet-encrypt_udp_packet :
      (salt plain out : Bytes) (s s' r : Session)
      → IsCrypto c
      → length salt ≡ 32
      → r.master_key ≡ s.master_key
      → encrypt_udp_packet c (some salt) plain s ≡ (s', ok out)
      → decrypt_udp_packet c out r ≡ ok (some plain)
  unfolding decrypt_udp_packet
  decrypt_udp_packet-encrypt_udp_packet salt plain out s s' r v h same e =
      let k = encrypt_udp_packet-Packet salt plain out s s' v e in
      let body = k.cipher ++ k.tag in
      let n : length (salt ++ body) ≡ 48 + length plain = omega (
        arith,
        length-append salt body,
        length-append k.cipher k.tag,
        k.sealed.length-cipher,
        k.sealed.length-tag,
      ) in
      let len : length (salt ++ body) - 32 - 16 ≡ length plain = omega arith in
      rw k.out_is (
        rw (
          le→ltb_false (length (salt ++ body)) 48 (omega arith),
          take-append 32 salt body h,
          same,
          k.derived,
          len,
          open_packet-Sealed salt k.key s'.send_nonce plain k.cipher k.tag h k.sealed,
        ))
