-- ===== src/Aead/Session.antt =====
-- ShadowsocksAeadSession: the members of the class, and a function for each method. A method takes
-- the session and returns the session that it leaves, with its result or the error that it throws.
use ovpn2ss.Common.{
  ℕ, ◌+◌, ◌-◌, ◌*◌, ◌/◌, ◌%◌, ◌^◌, Bool, true, false, not, ◌||◌, Option, none, some, Bytes, [], ◌∷◌,
  ◌++◌, ltb, ◌==◌, if◌then◌else◌, length, take, drop, replicate, codes,
}
use ovpn2ss.Common.Outcome.{
  Error, Result, ok, err, ◌>>=◌, rng_failed, hkdf_failed, encrypt_failed, bad_salt_size,
  send_salt_missing, chunk_too_large, bad_length_tag, bad_payload_tag,
}
use ovpn2ss.Aead.Crypto.{Crypto}
use ovpn2ss.Aead.Key.{key_size}
use ovpn2ss.Aead.Nonce.{increment_nonce}

abbrev pub salt_size : ℕ
salt_size = 32

abbrev pub tag_size : ℕ
tag_size = 16

abbrev pub nonce_size : ℕ
nonce_size = 12

abbrev pub zero_nonce : Bytes
zero_nonce = replicate nonce_size 0

pub record Session : Type 0 where
  pub master_key : Bytes
  pub send_key : Bytes
  pub recv_key : Bytes
  pub send_nonce : Bytes
  pub recv_nonce : Bytes
  pub have_recv_key : Bool
  pub sent_salt : Bool

-- The constructor, and ShadowsocksAeadFactory::make_session.
abbrev pub make_session : Bytes → Session
make_session key = record {
  master_key = key;
  send_key = replicate key_size 0;
  recv_key = replicate key_size 0;
  send_nonce = zero_nonce;
  recv_nonce = zero_nonce;
  have_recv_key = false;
  sent_salt = false;
}

-- The two bytes of a 16-bit number, high byte first (append_be16), and back (read_be16).
abbrev pub be16 : ℕ → Bytes
be16 v = (v / 256 % 256) ∷ (v % 256) ∷ []

-- Callers hand over two bytes at least; `hi << 8 | lo` is a sum for bytes.
abbrev pub read_be16 : Bytes → ℕ
read_be16 (hi ∷ lo ∷ _) = hi * 256 + lo
read_be16 _ = 0

abbrev pub or_throw {ℓ} : {A : Type ℓ} → Option A → Error → Result A
or_throw none e = err e
or_throw (some a) e = ok a

-- The session that a method leaves and what it answers: `next` runs if the call did not throw.
abbrev pub after {ℓ κ} :
    {A : Type ℓ} {B : Type κ} → Result A → Session → (A → Session × Result B) → Session × Result B
after (ok a) s next = next a
after (err e) s next = (s, err e)

module _ (c : Crypto) where
  unfoldable pub derive_subkey : Bytes → Bytes → Result Bytes
  derive_subkey salt master_key =
      or_throw (c.hkdf_sha1 salt master_key (codes "ss-subkey") key_size) hkdf_failed

  -- `crypt` also returns the nonce, which it steps only if the call succeeds.
  unfoldable pub crypt : Bytes → Bytes → Bytes → Result (Bytes × Bytes × Bytes)
  crypt key nonce input = elim (c.encrypt_and_tag key nonce input) [
    | none ↦ err encrypt_failed
    | some (output, tag) ↦ ok (increment_nonce nonce, output, tag)
  ]

  -- `decrypt` answers false (`none`), or true with the stepped nonce and the output.
  unfoldable pub decrypt : Bytes → Bytes → Bytes → Bytes → Option (Bytes × Bytes)
  decrypt key nonce input tag = elim (c.auth_decrypt key nonce tag input) [
    | none ↦ none
    | some output ↦ some (increment_nonce nonce, output)
  ]

  -- `draw` is what random_bytes writes into the salt; `none` if it throws.
  unfoldable pub client_salt : Option Bytes → Session → Session × Result Bytes
  client_salt draw s = after (or_throw draw rng_failed) s λ salt.
      after (derive_subkey salt s.master_key) s
        λ key. (record s { send_key = key; send_nonce = zero_nonce; sent_salt = true }, ok salt)

  unfoldable pub set_client_salt : Bytes → Session → Session × Result (Unit {0})
  set_client_salt salt s =
      if not (length salt == salt_size)
      then (s, err bad_salt_size)
      else after (derive_subkey salt s.master_key) s
          λ key. (record s { recv_key = key; recv_nonce = zero_nonce; have_recv_key = true }, ok tt)

  -- The two sealed parts of a chunk: its length, then its payload. If the second call throws, the
  -- nonce has been stepped once.
  unfoldable pub seal_chunk : Bytes → Session → Session × Result Bytes
  seal_chunk plain s = after (crypt s.send_key s.send_nonce (be16 (length plain))) s λ head.
      let s1 = record s { send_nonce = head.0 } in
      after (crypt s.send_key head.0 plain) s1
        λ body. (record s { send_nonce = body.0 }, ok (head.1 ++ (head.2 ++ (body.1 ++ body.2))))

  unfoldable pub encrypt_tcp_chunk : Bytes → Session → Session × Result Bytes
  unfolding seal_chunk
  encrypt_tcp_chunk plain s =
      if not s.sent_salt
      then (s, err send_salt_missing)
      else if ltb 0x3fff (length plain)
      then (s, err chunk_too_large)
      else seal_chunk plain s

  -- The part behind the length: `stream` is the whole stream, `nonce` the trial nonce.
  unfoldable pub open_payload :
      ℕ → Bytes → Bytes → Session → Session × Result (Option (Bytes × Bytes))
  open_payload payload_len nonce stream s =
      let need = 2 + tag_size + payload_len + tag_size in
      let payload = take payload_len (drop (2 + tag_size) stream) in
      let payload_tag = take tag_size (drop (2 + tag_size + payload_len) stream) in
      if ltb (length stream) need
      then (s, ok none)
      else elim (decrypt s.recv_key nonce payload payload_tag) [
        | none ↦ (s, err bad_payload_tag)
        | some (nonce', plain) ↦
            (record s { recv_nonce = nonce' }, ok (some (plain, drop need stream)))
      ]

  -- `encrypted_stream` is a reference: the answer is the chunk with the stream that is left, and
  -- `none` or an error leaves the stream as it was. `& 0x3fff` is `% 2 ^ 14`.
  unfoldable pub decrypt_tcp_chunk : Bytes → Session → Session × Result (Option (Bytes × Bytes))
  decrypt_tcp_chunk stream s =
      if not s.have_recv_key || ltb (length stream) (2 + tag_size)
      then (s, ok none)
      else elim (decrypt s.recv_key s.recv_nonce (take 2 stream) (take tag_size (drop 2 stream))) [
        | none ↦ (s, err bad_length_tag)
        | some (nonce, len_plain) ↦ open_payload (read_be16 len_plain % 2 ^ 14) nonce stream s
      ]

  unfoldable pub encrypt_udp_packet : Option Bytes → Bytes → Session → Session × Result Bytes
  encrypt_udp_packet draw plain s =
      let (s1, salted) = client_salt draw s in
      after salted s1 λ salt.
        after (crypt s1.send_key s1.send_nonce plain) s1
          λ body. (record s1 { send_nonce = body.0 }, ok (salt ++ (body.1 ++ body.2)))

  -- The part of decrypt_udp_packet behind derive_subkey; false from `decrypt` is no error here.
  unfoldable pub open_packet : ℕ → Bytes → Bytes → Option Bytes
  open_packet body_len key encrypted =
      let body = take body_len (drop salt_size encrypted) in
      let tag = take tag_size (drop (salt_size + body_len) encrypted) in
      elim (decrypt key zero_nonce body tag) [ none ↦ none | some (nonce, plain) ↦ some plain ]

  -- Changes no member; throws only if derive_subkey does.
  unfoldable pub decrypt_udp_packet : Bytes → Session → Result (Option Bytes)
  decrypt_udp_packet encrypted s =
      if ltb (length encrypted) (salt_size + tag_size) then ok none else do
        key ← derive_subkey (take salt_size encrypted) s.master_key
        ok (open_packet (length encrypted - salt_size - tag_size) key encrypted)
