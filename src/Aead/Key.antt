-- ===== src/Aead/Key.antt =====
-- evp_bytes_to_key of src/ShadowsocksAead.cpp: the master key of a password.
use ovpn2ss.Common.{
  ℕ, zero, suc, ◌+◌, ◌-◌, ◌≡◌, min, Option, none, some, Bytes, [], ◌++◌, ltb, ◌==◌, take, drop,
  replicate, length, if◌then◌else◌, arith, take-append, append-nil, length-append, ap, not,
  take_all, drop_all,
}
use ovpn2ss.Aead.Crypto.{Crypto, IsCrypto}

abbrev pub key_size : ℕ
key_size = 32

-- memcpy of the first `n` bytes of `src` to `dst + at`.
abbrev pub copy_into : Bytes → ℕ → Bytes → ℕ → Bytes
copy_into dst at src n = take at dst ++ (take n src ++ drop (at + n) dst)

abbrev digest_size : ℕ
digest_size = 16

module _ (c : Crypto) (password : Bytes) where
  -- The loop on fuel: the key so far, the last digest, and the bytes produced.
  key_loop : ℕ → Bytes → Bytes → ℕ → Option Bytes
  key_loop zero key digest produced = none
  key_loop (suc fuel) key digest produced =
      let next = c.md5 ((if not (produced == 0) then digest else []) ++ password) in
      let n = min digest_size (key_size - produced) in
      let rest = key_loop fuel (copy_into key produced next n) next (produced + n) in
      if ltb produced key_size then rest else some key

  -- A round adds 16 bytes, so two rounds fill the key and the third finds it full.
  unfoldable pub evp_bytes_to_key : Option Bytes
  unfolding key_loop
  evp_bytes_to_key = key_loop 3 (replicate key_size 0) (replicate digest_size 0) 0

  -- Two digests written one after the other fill the key.
  filled :
      (a b : Bytes)
      → length a ≡ 16
      → length b ≡ 16
      → copy_into (copy_into (replicate key_size 0) 0 a 16) 16 b 16 ≡ a ++ b
  filled a b ha hb = rw (
    take_all 16 a ha,
    take_all 16 b hb,
    take-append 16 a (replicate 16 0) ha,
    drop_all 32 (a ++ replicate 16 0) (omega (arith, length-append a (replicate 16 0))),
    append-nil,
  )

  -- With digests of 16 bytes, the loop of evp_bytes_to_key ends, and the key is the digest of the
  -- password followed by the digest of that digest and the password: OpenSSL's EVP_BytesToKey with
  -- MD5, no salt and one iteration.
  pub evp_bytes_to_key_lem :
      IsCrypto c → evp_bytes_to_key ≡ some (c.md5 password ++ c.md5 (c.md5 password ++ password))
  unfolding evp_bytes_to_key
  evp_bytes_to_key_lem v = ap some (
      filled (c.md5 password) (c.md5 (c.md5 password ++ password)) (v.length-md5 password)
        (v.length-md5 _))
