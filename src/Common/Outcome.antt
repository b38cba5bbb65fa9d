-- ===== src/Common/Outcome.antt =====
-- What a call that may throw leaves behind: std::runtime_error and its like as values.
use mathlib.Core.Path.{◌≡◌, refl}
use mathlib.Core.Logic.{◌⊎◌, inl, inr}
use native.Mathlib.Omega.{arith}

-- The errors that the program throws, by the text that each carries.
pub data Error : Type 0 where
  rng_failed hkdf_failed encrypt_failed : Error
  bad_salt_size send_salt_missing chunk_too_large bad_length_tag bad_payload_tag : Error
  domain_too_long bad_ipv4 bad_ipv6 bad_address_type : Error
  bad_ip bad_prefix bad_dns_label udp_new_failed out_of_bounds : Error
  cannot_open_config bad_json instances_array_required instance_required object_required : Error
  non_empty_string_required string_required tcp_port_required number_required bad_port : Error
  no_ovpn_file bad_method duplicate_port system_error : Error
  eval_failed : Error

pub data Result {ℓ} (A : Type ℓ) : Type ℓ where
  ok : A → Result A
  err : Error → Result A

infixl 5 ◌>>=◌
abbrev pub ◌>>=◌ {ℓ κ} : {A : Type ℓ} {B : Type κ} → Result A → (A → Result B) → Result B
ok a >>= f = f a
err e >>= f = err e

pub Result-cases {ℓ} :
    {A : Type ℓ} (r : Result A) → ((a : A) × (r ≡ ok a)) ⊎ ((e : Error) × (r ≡ err e))
Result-cases (ok a) = inl (a, refl)
Result-cases (err e) = inr (e, refl)

-- A chain that ends without an error passed its first call.
pub bind_ok {ℓ κ} :
    {A : Type ℓ} {B : Type κ} (r : Result A) (f : A → Result B) (b : B)
    → (r >>= f) ≡ ok b
    → (a : A) × (r ≡ ok a) × (f a ≡ ok b)
bind_ok (ok a) f b e = (a, refl, e)
bind_ok (err x) f b e = ground arith
