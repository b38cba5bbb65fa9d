-- ===== src/Address/RoundTrip.antt =====
-- An address that is parsed and one that is encoded: parse_ss_address against encode_ss_address.
use ovpn2ss.Common.{
  ℕ, zero, suc, ◌+◌, ◌*◌, ◌%◌, ◌≤◌, ◌<◌, ◌≡◌, refl, sym, ap, ◌∙◌, some, Bytes, [], ◌∷◌, ◌++◌, ltb,
  length, take, drop, All, IsByte, arith, take-append-drop, take-append, drop-append, take_all,
  Bool-cases, inl, inr, ltb_false→le, length-append, append_assoc, le→ltb_false, length-take,
}
use ovpn2ss.Common.Outcome.{ok}
use ovpn2ss.Aead.Session.{be16}
use ovpn2ss.Address.{
  AddressType, ipv4, domain, ipv6, other, to_type, type_byte, TargetAddress, Asio, ipv4_text,
  ipv6_text, parse_port, parse_domain, parse_host, parse_ss_address, encode_host, encode_ss_address,
}

-- Asio reads back the texts that parse_ss_address writes.
pub record IsAsio (a : Asio) : Type 0 where
  pub reads_v4 :
      (bs : Bytes) → length bs ≡ 4 → All IsByte bs → a.make_address_v4 (ipv4_text bs) ≡ some bs
  pub reads_v6 :
      (bs : Bytes) → length bs ≡ 16 → All IsByte bs → a.make_address_v6 (ipv6_text bs) ≡ some bs

-- A host of its type.
abbrev pub HostFits : AddressType → Bytes → Type 0
HostFits ipv4 host = (bs : Bytes) × (length bs ≡ 4) × All IsByte bs × (host ≡ ipv4_text bs)
HostFits domain host = length host ≤ 255
HostFits ipv6 host = (bs : Bytes) × (length bs ≡ 16) × All IsByte bs × (host ≡ ipv6_text bs)
HostFits (other b) host = ⊥

pub record IsTarget (t : TargetAddress) : Type 0 where
  pub host_fits : HostFits t.type t.host
  pub port_fits : t.port < 65536

All-take : (n : ℕ) (xs : Bytes) → All IsByte xs → All IsByte (take n xs)
All-take zero xs h = tt
All-take (suc n) [] h = tt
All-take (suc n) (x ∷ xs) h = (h.0, All-take n xs h.1)

All-drop : (n : ℕ) (xs : Bytes) → All IsByte xs → All IsByte (drop n xs)
All-drop zero xs h = h
All-drop (suc n) [] h = tt
All-drop (suc n) (x ∷ xs) h = All-drop n xs h.1

-- The text of an IPv6 address fills the buffer of `parse_ss_address` but for the end mark.
pub length-ipv6_text :
    (n : ℕ) (bs : Bytes) → length bs ≡ 2 * suc n → length (ipv6_text bs) + 1 ≡ 5 * suc n
length-ipv6_text n [] e = absurd (omega arith)
length-ipv6_text n (a ∷ []) e = absurd (omega arith)
length-ipv6_text n (a ∷ b ∷ []) e = omega arith
length-ipv6_text zero (a ∷ b ∷ c ∷ rest) e = absurd (omega arith)
length-ipv6_text (suc n) (a ∷ b ∷ c ∷ rest) e =
    omega (arith, length-ipv6_text n (c ∷ rest) (omega arith))

untruncated : (bs : Bytes) → length bs ≡ 16 → take 39 (ipv6_text bs) ≡ ipv6_text bs
untruncated bs e = take_all 39 (ipv6_text bs) (omega (arith, length-ipv6_text 7 bs (omega arith)))

-- The end of a parse that succeeded.
record Ported (type : AddressType) (host bytes : Bytes) (t : TargetAddress) (rest : Bytes)
    : Type 0 where
  type_is : t.type ≡ type
  host_is : t.host ≡ host
  bytes_are : bytes ≡ be16 t.port ++ rest
  port_fits : t.port < 65536

parse_port-Ported :
    (type : AddressType) (host bytes : Bytes) (t : TargetAddress) (rest : Bytes)
    → All IsByte bytes
    → parse_port type host bytes ≡ (some t, rest)
    → Ported type host bytes t rest
unfolding parse_port
parse_port-Ported type host [] t rest h e = ground arith
parse_port-Ported type host (x ∷ []) t rest h e = ground arith
parse_port-Ported type host (hi ∷ lo ∷ bytes) t rest h e = ground arith

type_byte-to_type : (b : ℕ) → type_byte (to_type b) ≡ b
type_byte-to_type b = ground arith

to_type-type_byte :
    (type : AddressType) (host : Bytes) → HostFits type host → to_type (type_byte type) ≡ type
to_type-type_byte ipv4 host h = refl
to_type-type_byte domain host h = refl
to_type-type_byte ipv6 host h = refl
to_type-type_byte (other b) host h = absurd h

module _ (a : Asio) where
  -- A parse that succeeded, and what the encoder makes of its host.
  record Framed (type : AddressType) (bytes : Bytes) (t : TargetAddress) (rest : Bytes)
      : Type 0 where
    raw : Bytes
    encodes : encode_host a type t.host ≡ ok raw
    type_is : t.type ≡ type
    fits : HostFits type t.host
    port_fits : t.port < 65536
    bytes_are : bytes ≡ raw ++ (be16 t.port ++ rest)

  -- The host of the types that carry a fixed number of bytes.
  fixed-Framed :
      (n : ℕ) (type : AddressType) (text : Bytes → Bytes) (bytes : Bytes) (t : TargetAddress)
      (rest : Bytes)
      → encode_host a type (text (take n bytes)) ≡ ok (take n bytes)
      → HostFits type (text (take n bytes))
      → Ported type (text (take n bytes)) (drop n bytes) t rest
      → Framed type bytes t rest
  fixed-Framed n type text bytes t rest e f k = record {
    raw = take n bytes;
    encodes = rw k.host_is e;
    type_is = k.type_is;
    fits = rw k.host_is f;
    port_fits = k.port_fits;
    bytes_are = sym (take-append-drop n bytes) ∙ ap (◌++◌ (take n bytes)) k.bytes_are;
  }

  encode_host_domain :
      (host : Bytes) (n : ℕ) → length host ≡ n → n < 256 → encode_host a domain host ≡ ok (n ∷ host)
  unfolding encode_host
  encode_host_domain host n e h =
      let low : length host % 256 ≡ n = omega arith in
      rw (le→ltb_false 255 (length host) (omega arith), low)

  parse_domain-Framed :
      (bytes : Bytes) (t : TargetAddress) (rest : Bytes)
      → All IsByte bytes
      → parse_domain bytes ≡ (some t, rest)
      → Framed domain bytes t rest
  unfolding parse_domain
  parse_domain-Framed [] t rest h e = ground arith
  parse_domain-Framed (len ∷ bytes) t rest h e = elim (Bool-cases (ltb (length bytes) (len + 2))) [
    | inl short ↦ ground arith
    | inr long ↦
        let n : length (take len bytes) ≡ len =
          omega (arith, length-take len bytes, ltb_false→le (length bytes) (len + 2) long) in
        let k =
          parse_port-Ported domain (take len bytes) (drop len bytes) t rest (All-drop len bytes h.1)
            (rw long at e) in
        record {
          raw = len ∷ take len bytes;
          encodes = rw k.host_is (encode_host_domain (take len bytes) len n h.0);
          type_is = k.type_is;
          fits = rw k.host_is (omega (arith, n, h.0));
          port_fits = k.port_fits;
          bytes_are =
              ap (◌∷◌ len)
                (sym (take-append-drop len bytes) ∙ ap (◌++◌ (take len bytes)) k.bytes_are);
        }
  ]

  parse_host-Framed :
      (type : AddressType) (bytes : Bytes) (t : TargetAddress) (rest : Bytes)
      → IsAsio a
      → All IsByte bytes
      → parse_host type bytes ≡ (some t, rest)
      → Framed type bytes t rest
  unfolding parse_host encode_host
  parse_host-Framed ipv4 bytes t rest v h e = elim (Bool-cases (ltb (length bytes) 6)) [
    | inl short ↦ ground arith
    | inr long ↦
        let n : length (take 4 bytes) ≡ 4 =
          omega (arith, length-take 4 bytes, ltb_false→le (length bytes) 6 long) in
        fixed-Framed 4 ipv4 ipv4_text bytes t rest
          (rw (v.reads_v4 (take 4 bytes) n (All-take 4 bytes h)))
          (take 4 bytes, n, All-take 4 bytes h, refl)
          (parse_port-Ported ipv4 _ (drop 4 bytes) t rest (All-drop 4 bytes h) (rw long at e))
  ]
  parse_host-Framed domain bytes t rest v h e = parse_domain-Framed bytes t rest h e
  parse_host-Framed ipv6 bytes t rest v h e = elim (Bool-cases (ltb (length bytes) 18)) [
    | inl short ↦ ground arith
    | inr long ↦
        let n : length (take 16 bytes) ≡ 16 =
          omega (arith, length-take 16 bytes, ltb_false→le (length bytes) 18 long) in
        fixed-Framed 16 ipv6 ipv6_text bytes t rest
          (rw (v.reads_v6 (take 16 bytes) n (All-take 16 bytes h)))
          (take 16 bytes, n, All-take 16 bytes h, refl)
          (parse_port-Ported ipv6 _ (drop 16 bytes) t rest (All-drop 16 bytes h)
            (rw (untruncated (take 16 bytes) n) at (rw long at e)))
  ]
  parse_host-Framed (other b) bytes t rest v h e = ground arith

  -- Whatever address is parsed from the front of some bytes, encoding it gives back that front, the
  -- bytes that are left are those behind it, and what is parsed is a target that fits its type.
  -- Asio reads back the texts that the parser writes.
  pub encode_ss_address-parse_ss_address :
      (bytes rest : Bytes) (t : TargetAddress)
      → IsAsio a
      → All IsByte bytes
      → parse_ss_address bytes ≡ (some t, rest)
      → IsTarget t
        × ((front : Bytes) × (encode_ss_address a t ≡ ok front) × (bytes ≡ front ++ rest))
  unfolding parse_ss_address encode_ss_address
  encode_ss_address-parse_ss_address [] rest t v h e = ground arith
  encode_ss_address-parse_ss_address (b ∷ bytes) rest t v h e =
      let k = parse_host-Framed (to_type b) bytes t rest v h.1 e in
      let byte = type_byte-to_type b in
      (
        record { host_fits = rw k.type_is k.fits; port_fits = k.port_fits },
        (
          b ∷ (k.raw ++ be16 t.port),
          rw (k.type_is, k.encodes, byte),
          ap (◌∷◌ b) (k.bytes_are ∙ sym (append_assoc k.raw (be16 t.port) rest)),
        ),
      )

-- The port of an encoded target, with anything behind it.
parse_port-be16 :
    (type : AddressType) (host rest : Bytes) (port : ℕ)
    → port < 65536
    → parse_port type host (be16 port ++ rest)
      ≡ (some (record { type = type; host = host; port = port }), rest)
unfolding parse_port
parse_port-be16 type host rest port h = ground arith

module _ (a : Asio) where
  parse_host-encode_host :
      (type : AddressType) (host rest : Bytes) (port : ℕ)
      → IsAsio a
      → HostFits type host
      → port < 65536
      → (raw : Bytes) × (encode_host a type host ≡ ok raw)
        × (parse_host type (raw ++ (be16 port ++ rest))
            ≡ (some (record { type = type; host = host; port = port }), rest))
  unfolding parse_host encode_host
  parse_host-encode_host ipv4 host rest port v (bs, n, h, e) p =
      let tail = be16 port ++ rest in
      let long = le→ltb_false (length (bs ++ tail)) 6 (omega (arith, length-append bs tail)) in
      (
        bs,
        rw (e, v.reads_v4 bs n h),
        rw (long, take-append 4 bs tail n, drop-append 4 bs tail n, ← e)
            (parse_port-be16 ipv4 host rest port p),
      )
  parse_host-encode_host domain host rest port v h p =
      let tail = be16 port ++ rest in
      let long =
        le→ltb_false (length (host ++ tail)) (length host + 2)
          (omega (arith, length-append host tail)) in
      (
        length host ∷ host,
        encode_host_domain a host (length host) refl (omega arith),
        rw
            (
              long,
              take-append (length host) host tail refl,
              drop-append (length host) host tail refl,
            )
            (parse_port-be16 domain host rest port p),
      )
  parse_host-encode_host ipv6 host rest port v (bs, n, h, e) p =
      let tail = be16 port ++ rest in
      let long = le→ltb_false (length (bs ++ tail)) 18 (omega (arith, length-append bs tail)) in
      (
        bs,
        rw (e, v.reads_v6 bs n h),
        rw (long, take-append 16 bs tail n, drop-append 16 bs tail n, untruncated bs n, ← e)
            (parse_port-be16 ipv6 host rest port p),
      )
  parse_host-encode_host (other b) host rest port v h p = absurd h

  -- Every target that fits its type can be encoded, and whatever follows the encoding, the parser
  -- reads the target back and leaves what follows. Asio reads back the texts that the parser
  -- writes.
  pub parse_ss_address-encode_ss_address :
      (t : TargetAddress) (rest : Bytes)
      → IsAsio a
      → IsTarget t
      → (out : Bytes) × (encode_ss_address a t ≡ ok out)
        × (parse_ss_address (out ++ rest) ≡ (some t, rest))
  unfolding parse_ss_address encode_ss_address
  parse_ss_address-encode_ss_address t rest v k =
      let (raw, enc, dec) =
        parse_host-encode_host t.type t.host rest t.port v k.host_fits k.port_fits in
      (
        type_byte t.type ∷ (raw ++ be16 t.port),
        rw enc,
        rw (append_assoc raw (be16 t.port) rest, to_type-type_byte t.type t.host k.host_fits) dec,
      )
