-- ===== src/Examples/Sessions.antt =====
-- Sessions of src/ShadowsocksAead.cpp that run on the small cipher.
use ovpn2ss.Common.{
  ℕ, zero, suc, ◌≡◌, ◌≢◌, refl, none, some, true, Bytes, ◌++◌, [], ◌∷◌, codes, replicate, same,
  take, arith,
}
use ovpn2ss.Common.Outcome.{ok, err, bad_length_tag}
use ovpn2ss.Aead.Key.{evp_bytes_to_key, evp_bytes_to_key_lem}
use ovpn2ss.Aead.Nonce.{increment_nonce}
use ovpn2ss.Aead.Session.{
  Session, crypt, decrypt, open_payload, derive_subkey, make_session, client_salt, set_client_salt,
  encrypt_tcp_chunk, decrypt_tcp_chunk, encrypt_udp_packet, decrypt_udp_packet,
}
use ovpn2ss.Aead.TcpChunk.{Synced, set_client_salt-client_salt, decrypt_tcp_chunk-encrypt_tcp_chunk}
use ovpn2ss.Aead.UdpPacket.{decrypt_udp_packet-encrypt_udp_packet}
use ovpn2ss.Aead.Reuse.{Sends, done, send, encrypt_tcp_chunk_reuses_nonce}
use ovpn2ss.Examples.Toy.{toy, toy-IsCrypto}

abbrev pub password : Bytes
password = codes "secret"

abbrev pub key : Bytes
key = take 32 (password ++ replicate 32 1)

abbrev pub salt : Bytes
salt = 9 ∷ 8 ∷ replicate 30 5

-- The side that sends and the side that receives, once the salt is known to both.
abbrev pub sender : Session
sender = record (make_session key) { send_key = replicate 32 3; sent_salt = true }

abbrev pub receiver : Session
receiver = record (make_session key) { recv_key = replicate 32 3; have_recv_key = true }

abbrev pub hello : Bytes
hello = codes "hello"

-- The stream of one chunk: the second nonce begins with a 1, and so does what the tag has of it.
abbrev pub sealed : Bytes
sealed =
    0
    ∷ 5
    ∷ ((replicate 4 3 ++ replicate 12 0) ++ (hello ++ (replicate 4 3 ++ (1 ∷ replicate 11 0))))

abbrev pub sender' : Session
sender' = record sender { send_nonce = 2 ∷ replicate 11 0 }

pub sender-Synced : Synced sender receiver
sender-Synced = record { ready = refl; same_key = refl; same_nonce = refl }

pub sealed_hello : encrypt_tcp_chunk toy hello sender ≡ (sender', ok sealed)
unfolding encrypt_tcp_chunk crypt increment_nonce
sealed_hello = refl

sealed_opens : (decrypt_tcp_chunk toy (sealed ++ hello) receiver).1 ≡ ok (some (hello, hello))
unfolding decrypt_tcp_chunk open_payload decrypt increment_nonce same
sealed_opens = refl

-- A stream with a changed tag is refused.
tampered : (decrypt_tcp_chunk toy (0 ∷ 5 ∷ replicate 40 1) receiver).1 ≡ err bad_length_tag
unfolding decrypt_tcp_chunk open_payload decrypt same
tampered = refl

abbrev salted : Session
salted = record (make_session key) {
  send_key = 9 ∷ 8 ∷ 115 ∷ 101 ∷ replicate 28 0;
  sent_salt = true;
}

-- The salt that a fresh session draws.
drawn : client_salt toy (some salt) (make_session key) ≡ (salted, ok salt)
unfolding client_salt derive_subkey
drawn = refl

decrypt_tcp_chunk-encrypt_tcp_chunk_example :
    (r' : Session) × (decrypt_tcp_chunk toy (sealed ++ hello) receiver
      ≡ (r', ok (some (hello, hello))))
    × Synced sender' r'
decrypt_tcp_chunk-encrypt_tcp_chunk_example =
    decrypt_tcp_chunk-encrypt_tcp_chunk toy hello sealed hello sender sender' receiver toy-IsCrypto
      sender-Synced sealed_hello

abbrev packet : Bytes
packet = salt ++ (hello ++ (9 ∷ 8 ∷ 115 ∷ 101 ∷ replicate 12 0))

packet_sealed :
    encrypt_udp_packet toy (some salt) hello (make_session key)
    ≡ (record salted { send_nonce = 1 ∷ replicate 11 0 }, ok packet)
unfolding encrypt_udp_packet client_salt derive_subkey crypt increment_nonce
packet_sealed = refl

decrypt_udp_packet-encrypt_udp_packet_example :
    decrypt_udp_packet toy packet (make_session key) ≡ ok (some hello)
decrypt_udp_packet-encrypt_udp_packet_example =
    decrypt_udp_packet-encrypt_udp_packet toy salt hello packet (make_session key)
      (record salted { send_nonce = 1 ∷ replicate 11 0 }) (make_session key) toy-IsCrypto refl refl
      packet_sealed

sealed_answers : (decrypt_tcp_chunk toy sealed receiver).1 ≢ ok none
unfolding decrypt_tcp_chunk open_payload decrypt increment_nonce same
sealed_answers e = ground arith

evp_bytes_to_key_example :
    evp_bytes_to_key toy password
    ≡ some (toy.md5 password ++ toy.md5 (toy.md5 password ++ password))
evp_bytes_to_key_example = evp_bytes_to_key_lem toy password toy-IsCrypto

set_client_salt-client_salt_example :
    (salt ≡ salt)
    × ((r' : Session) × (set_client_salt toy salt (make_session key) ≡ (r', ok tt))
        × Synced salted r')
set_client_salt-client_salt_example =
    set_client_salt-client_salt toy salt salt (make_session key) salted (make_session key) refl refl
      drawn

abbrev sealed_part : Bytes → Bytes → Bytes → Bytes × Bytes × Bytes
sealed_part key nonce bytes = elim (toy.encrypt_and_tag key nonce bytes) [
  | some (cipher, tag) ↦ (increment_nonce nonce, cipher, tag)
  | none ↦ ([], [], [])
]

abbrev sealed_empty : Session → Bytes
sealed_empty s =
    let (n1, c1, t1) = sealed_part s.send_key s.send_nonce (0 ∷ 0 ∷ []) in
    let (n2, c2, t2) = sealed_part s.send_key n1 [] in c1 ++ (t1 ++ (c2 ++ t2))

empty_sealed :
    (s : Session)
    → s.sent_salt ≡ true
    → encrypt_tcp_chunk toy [] s ≡ (
      record s { send_nonce = increment_nonce (increment_nonce s.send_nonce) },
      ok (sealed_empty s),
    )
unfolding encrypt_tcp_chunk crypt
empty_sealed s e = rw (e, encrypt_tcp_chunk) refl

-- `n` empty chunks of a session that has sent its salt.
sends : (n : ℕ) (s : Session) → s.sent_salt ≡ true → (t : Session) × Sends toy t n s
unfolding encrypt_tcp_chunk crypt
sends zero s e = (s, done refl)
sends (suc n) s e =
    let s' = record s { send_nonce = increment_nonce (increment_nonce s.send_nonce) } in
    let (t, more) = sends n s' e in
    (t, send {s = s} {s' = s'} [] (sealed_empty s) (empty_sealed s e) more)

encrypt_tcp_chunk_reuses_nonce_example :
    ((sends 128 sender refl).0.send_nonce ≡ sender.send_nonce)
    × ((sends 128 sender refl).0.send_key ≡ sender.send_key)
encrypt_tcp_chunk_reuses_nonce_example =
    encrypt_tcp_chunk_reuses_nonce toy 0 (replicate 11 0) toy-IsCrypto refl (omega arith)
      (sends 128 sender refl).1
