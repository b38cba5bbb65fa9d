-- ===== src/Examples/ToyAsio.antt =====
-- Readers of the texts of addresses that keep Asio's promises.
use ovpn2ss.Common.{
  ℕ, suc, Bool, true, false, ◌&&◌, Option, none, refl, sym, ◌∙◌, codes, replicate, same, same_sound,
  Bool-cases, lt→ltb, inl, inr, ◌+◌, ◌-◌, ◌*◌, ◌/◌, ◌%◌, ◌<◌, ◌≡◌, ap, some, Bytes, [], ◌∷◌, ◌++◌,
  ltb, ◌==◌, if◌then◌else◌, length, arith, All, IsByte,
}
use ovpn2ss.Address.{Asio, to_string, hex_digit, ipv4_text, ipv6_text}
use ovpn2ss.Address.RoundTrip.{IsAsio, length-ipv6_text}
use ovpn2ss.Address.SameTarget.{GivesBytes}

-- Numbers with dots between them; `n` is the number so far.
abbrev read_v4 : ℕ → Bytes → Bytes
read_v4 n [] = n ∷ []
read_v4 n (x ∷ xs) = if x == b'.' then n ∷ read_v4 0 xs else read_v4 (n * 10 + (x - b'0')) xs

abbrev unhex : ℕ → ℕ
unhex x = if ltb x 58 then x - b'0' else x - 87

-- Groups of four digits with colons between them.
abbrev read_v6 : Bytes → Bytes
read_v6 (a ∷ b ∷ c ∷ d ∷ []) = (unhex a * 16 + unhex b) ∷ (unhex c * 16 + unhex d) ∷ []
read_v6 (a ∷ b ∷ c ∷ d ∷ e ∷ xs) = (unhex a * 16 + unhex b) ∷ (unhex c * 16 + unhex d) ∷ read_v6 xs
read_v6 _ = []

read_v4-digits :
    (b : ℕ) (xs : Bytes) → b < 256 → read_v4 0 (to_string b ++ (b'.' ∷ xs)) ≡ b ∷ read_v4 0 xs
read_v4-digits b xs h = ground arith

read_v4-last : (b : ℕ) → b < 256 → read_v4 0 (to_string b) ≡ b ∷ []
read_v4-last b h = ground arith

unhex-hex2 : (b : ℕ) → b < 256 → unhex (hex_digit (b / 16)) * 16 + unhex (hex_digit (b % 16)) ≡ b
unhex-hex2 b h = ground arith

read_v4-text : (bs : Bytes) → length bs ≡ 4 → All IsByte bs → read_v4 0 (ipv4_text bs) ≡ bs
read_v4-text (a ∷ b ∷ c ∷ d ∷ []) n (ha, (hb, (hc, (hd, u)))) = rw (
  read_v4-digits a (to_string b ++ (b'.' ∷ (to_string c ++ (b'.' ∷ to_string d)))) ha,
  read_v4-digits b (to_string c ++ (b'.' ∷ to_string d)) hb,
  read_v4-digits c (to_string d) hc,
  read_v4-last d hd,
)
read_v4-text _ n h = ground arith

read_v6-text :
    (n : ℕ) (bs : Bytes) → length bs ≡ 2 * suc n → All IsByte bs → read_v6 (ipv6_text bs) ≡ bs
read_v6-text n (a ∷ b ∷ []) e (ha, (hb, u)) = rw (unhex-hex2 a ha, unhex-hex2 b hb)
read_v6-text (suc n) (a ∷ b ∷ c ∷ rest) e (ha, (hb, h)) =
    rw (unhex-hex2 a ha, unhex-hex2 b hb, read_v6-text n (c ∷ rest) (omega arith) h)
read_v6-text _ _ e h = absurd (omega arith)

abbrev all_bytes : Bytes → Bool
all_bytes [] = true
all_bytes (b ∷ bs) = ltb b 256 && all_bytes bs

-- The address, if there are just `n` bytes of it.
abbrev checked : ℕ → Bytes → Option Bytes
checked n bs = if (length bs == n) && all_bytes bs then some bs else none

-- A text of an IPv6 address as lwIP writes it.
abbrev pub short_v6 : Bytes
short_v6 = codes "2001:DB8::1"

abbrev pub short_v6_bytes : Bytes
short_v6_bytes = 32 ∷ 1 ∷ 13 ∷ 184 ∷ (replicate 11 0 ++ 1 ∷ [])

abbrev pub toy_asio : Asio
toy_asio = record {
  make_address_v4 = λ text. checked 4 (read_v4 0 text);
  make_address_v6 =
      λ text. if same text short_v6 then some short_v6_bytes else checked 16 (read_v6 text);
}

all_bytes-IsByte : (bs : Bytes) → All IsByte bs → all_bytes bs ≡ true
all_bytes-IsByte [] h = refl
all_bytes-IsByte (b ∷ bs) (a, h) = rw (lt→ltb b 256 a, all_bytes-IsByte bs h) refl

all_bytes_sound : (bs : Bytes) → all_bytes bs ≡ true → All IsByte bs
all_bytes_sound [] h = tt
all_bytes_sound (b ∷ bs) h = elim (Bool-cases (ltb b 256)) [
  | inl e ↦ (ground arith, all_bytes_sound bs (rw e at h))
  | inr e ↦ absurd (ground arith)
]

checked-bytes : (n : ℕ) (bs : Bytes) → length bs ≡ n → All IsByte bs → checked n bs ≡ some bs
checked-bytes n bs e h =
    let long : (length bs == n) ≡ true = ground arith in rw (long, all_bytes-IsByte bs h) refl

checked_sound : (n : ℕ) (cs bs : Bytes) → checked n cs ≡ some bs → (length bs ≡ n) × All IsByte bs
checked_sound n cs bs e = elim (Bool-cases (all_bytes cs)) [
  | inr f ↦ absurd (ground arith)
  | inl f ↦
      let is : cs ≡ bs = ground arith in
      let long : length cs ≡ n = ground arith in
      (ap length (sym is) ∙ long, rw is at (all_bytes_sound cs f))
]

-- What parse_ss_address writes is longer.
not_short : (bs : Bytes) → length bs ≡ 16 → same (ipv6_text bs) short_v6 ≡ false
not_short bs n = elim (Bool-cases (same (ipv6_text bs) short_v6)) [
  | inr e ↦ e
  | inl e ↦ absurd (
      omega (
        arith,
        ap length (same_sound (ipv6_text bs) short_v6 e),
        length-ipv6_text 7 bs (omega arith),
      ))
]

pub toy_asio-IsAsio : IsAsio toy_asio
toy_asio-IsAsio = record {
  reads_v4 = λ bs n h. rw (read_v4-text bs n h) (checked-bytes 4 bs n h);
  reads_v6 = λ bs n h. rw (not_short bs n, read_v6-text 7 bs n h) (checked-bytes 16 bs n h);
}

some_inj : {x y : Bytes} → some x ≡ some y → x ≡ y
some_inj e = ground arith

the_bytes : (length short_v6_bytes ≡ 16) × All IsByte short_v6_bytes
the_bytes = (refl, all_bytes_sound short_v6_bytes refl)

as_bytes :
    (cs bs : Bytes) → cs ≡ bs → (length cs ≡ 16) × All IsByte cs → (length bs ≡ 16) × All IsByte bs
as_bytes cs bs e h = rw e at h

pub toy_asio-GivesBytes : GivesBytes toy_asio
toy_asio-GivesBytes = record {
  gives_v4 = λ text bs e. checked_sound 4 (read_v4 0 text) bs e;
  gives_v6 = λ text bs e. elim (Bool-cases (same text short_v6)) [
    | inl f ↦
        let is : short_v6_bytes ≡ bs = some_inj (rw f at e) in
        as_bytes short_v6_bytes bs is the_bytes
    | inr f ↦ checked_sound 16 (read_v6 text) bs (rw f at e)
  ];
}
