-- ===== src/Aead/Nonce.antt =====
-- ShadowsocksAeadSession::increment_nonce: the nonce is a counter, low byte first.
use ovpn2ss.Common.{
  ℕ, zero, suc, ◌+◌, ◌%◌, ◌<◌, ◌≡◌, Bytes, [], ◌∷◌, ◌==◌, if◌then◌else◌, arith, ap, ◌∙◌,
}

-- `next` is an int, `static_cast<unsigned char>(b) + 1`; only what is stored in `b` is cut to a byte.
-- The loop goes on to the next byte while `next` is 0.
unfoldable pub increment_nonce : Bytes → Bytes
increment_nonce [] = []
increment_nonce (b ∷ bs) =
    let next = b + 1 in (next % 256) ∷ (if next == 0 then increment_nonce bs else bs)

abbrev pub times {ℓ} : {A : Type ℓ} → ℕ → (A → A) → A → A
times zero f x = x
times (suc n) f x = times n f (f x)

-- Whatever the bytes are, only the first one changes: there is no carry.
pub increment_nonce-no_carry :
    (b : ℕ) (bs : Bytes) → increment_nonce (b ∷ bs) ≡ ((b + 1) % 256) ∷ bs
unfolding increment_nonce
increment_nonce-no_carry b bs = ground arith

pub times-increment_nonce :
    (n b : ℕ) (bs : Bytes) → b < 256 → times n increment_nonce (b ∷ bs) ≡ ((b + n) % 256) ∷ bs
times-increment_nonce zero b bs h = ground arith
times-increment_nonce (suc n) b bs h =
    rw increment_nonce-no_carry
      (times-increment_nonce n ((b + 1) % 256) bs (omega arith) ∙ ap (λ x. x ∷ bs) (omega arith))

-- After 256 steps every nonce that begins with a byte is back where it was.
pub increment_nonce_period :
    (b : ℕ) (bs : Bytes) → b < 256 → times 256 increment_nonce (b ∷ bs) ≡ b ∷ bs
increment_nonce_period b bs h = times-increment_nonce 256 b bs h ∙ ap (λ x. x ∷ bs) (omega arith)
