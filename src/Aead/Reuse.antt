-- ===== src/Aead/Reuse.antt =====
-- How the nonce moves while one side sends, and when a nonce comes back under the same key.
use ovpn2ss.Common.{ℕ, suc, ◌+◌, ◌<◌, ◌≡◌, ap, ◌∙◌, Bytes, ◌∷◌, arith, sym}
use ovpn2ss.Common.Outcome.{ok}
use ovpn2ss.Aead.Crypto.{Crypto, IsCrypto}
use ovpn2ss.Aead.Nonce.{increment_nonce, times, increment_nonce_period}
use ovpn2ss.Aead.Session.{Session, encrypt_tcp_chunk}
use ovpn2ss.Aead.TcpChunk.{encrypt_tcp_chunk-Chunk}

module _ (c : Crypto) where
  -- `n` chunks are sealed one after the other, none of them with an error.
  pub data Sends (t : Session) : ℕ → Session → Type 0 where
    done : {s : Session} → s ≡ t → Sends t 0 s
    send :
        {n : ℕ} {s s' : Session} (plain out : Bytes)
        → encrypt_tcp_chunk c plain s ≡ (s', ok out)
        → Sends t n s'
        → Sends t (suc n) s

  Sends-nonce :
      {t : Session} {n : ℕ} {s : Session}
      → IsCrypto c
      → Sends t n s
      → (t.send_nonce ≡ times (n + n) increment_nonce s.send_nonce) × (t.send_key ≡ s.send_key)
  Sends-nonce v (done e) = (ap (λ x. x.send_nonce) (sym e), ap (λ x. x.send_key) (sym e))
  Sends-nonce {t} {s = s} v (send {n} {s' = s'} plain out e more) =
      let k = encrypt_tcp_chunk-Chunk c plain out s s' v e in
      let (nonce, key) = Sends-nonce v more in
      let twice : s'.send_nonce ≡ increment_nonce (increment_nonce s.send_nonce) =
        k.body.stepped ∙ ap increment_nonce k.head.stepped in
      let count : suc n + suc n ≡ suc (suc (n + n)) = omega arith in
      (
        nonce
            ∙ ap (times (n + n) increment_nonce) twice
            ∙ ap (λ i. times i increment_nonce s.send_nonce) (sym count),
        key ∙ ap (λ x. x.send_key) k.state_is,
      )

  -- A side that seals 128 chunks, none of them with an error, has the nonce and the key that it had
  -- before: from there on it seals other chunks under nonces that it has used. The nonce begins
  -- with a byte, and the cipher keeps its laws.
  pub encrypt_tcp_chunk_reuses_nonce :
      {s t : Session} (b : ℕ) (bs : Bytes)
      → IsCrypto c
      → s.send_nonce ≡ b ∷ bs
      → b < 256
      → Sends t 128 s
      → (t.send_nonce ≡ s.send_nonce) × (t.send_key ≡ s.send_key)
  encrypt_tcp_chunk_reuses_nonce b bs v e h run =
      let (nonce, key) = Sends-nonce v run in
      (nonce ∙ ap (times 256 increment_nonce) e ∙ increment_nonce_period b bs h ∙ sym e, key)
