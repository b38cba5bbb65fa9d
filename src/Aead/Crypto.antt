-- ===== src/Aead/Crypto.antt =====
-- The calls of mbedTLS that src/ShadowsocksAead.cpp makes. mbedTLS is not part of the repository, so
-- the calls are a parameter of the model, with what their documentation promises as laws.
use ovpn2ss.Common.{ℕ, ◌≡◌, Option, some, Bytes, length}

pub record Crypto : Type 0 where
  -- mbedtls_md5 over the concatenation of the updates.
  pub md5 : Bytes → Bytes
  -- mbedtls_hkdf with SHA-1: salt, key, info and the length asked for; `none` is a code other than 0.
  pub hkdf_sha1 : Bytes → Bytes → Bytes → ℕ → Option Bytes
  -- mbedtls_chachapoly_setkey and _encrypt_and_tag: key, nonce and input; the output and the tag.
  pub encrypt_and_tag : Bytes → Bytes → Bytes → Option (Bytes × Bytes)
  -- mbedtls_chachapoly_setkey and _auth_decrypt: key, nonce, tag and input; the output.
  pub auth_decrypt : Bytes → Bytes → Bytes → Bytes → Option Bytes

pub record IsCrypto (c : Crypto) : Type 0 where
  pub length-md5 : (text : Bytes) → length (c.md5 text) ≡ 16
  pub length-encrypt :
      (key nonce plain cipher tag : Bytes)
      → c.encrypt_and_tag key nonce plain ≡ some (cipher, tag)
      → length cipher ≡ length plain
  pub length-tag :
      (key nonce plain cipher tag : Bytes)
      → c.encrypt_and_tag key nonce plain ≡ some (cipher, tag)
      → length tag ≡ 16
  pub decrypt-encrypt :
      (key nonce plain cipher tag : Bytes)
      → c.encrypt_and_tag key nonce plain ≡ some (cipher, tag)
      → c.auth_decrypt key nonce tag cipher ≡ some plain
