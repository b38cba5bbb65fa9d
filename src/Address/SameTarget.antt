-- ===== src/Address/SameTarget.antt =====
-- What the parser makes of an encoded address whose host may be any text that Asio reads: IP
-- addresses have many texts, and parse_ss_address writes one of them.
use ovpn2ss.Common.{
  ◌<◌, ◌≡◌, refl, sym, ap, ◌∙◌, some, inl, inr, Bytes, ◌∷◌, ◌++◌, length, All, IsByte, arith,
  Bool-cases, Option-cases, ltb, ltb_false→le,
}
use ovpn2ss.Common.Outcome.{ok, bind_ok}
use ovpn2ss.Aead.Session.{be16}
use ovpn2ss.Address.{
  AddressType, ipv4, domain, ipv6, other, type_byte, TargetAddress, Asio, ipv4_text, ipv6_text,
  encode_host, encode_ss_address, parse_ss_address,
}
use ovpn2ss.Address.RoundTrip.{IsAsio, HostFits, parse_ss_address-encode_ss_address}

-- The addresses that Asio reads have the bytes of their kind.
pub record GivesBytes (a : Asio) : Type 0 where
  pub gives_v4 :
      (text bs : Bytes) → a.make_address_v4 text ≡ some bs → (length bs ≡ 4) × All IsByte bs
  pub gives_v6 :
      (text bs : Bytes) → a.make_address_v6 text ≡ some bs → (length bs ≡ 16) × All IsByte bs

-- The same name, or two texts that Asio reads as the same address.
abbrev pub SameHost : Asio → AddressType → Bytes → Bytes → Type 0
SameHost a ipv4 host host' =
    (bs : Bytes) × (a.make_address_v4 host ≡ some bs) × (a.make_address_v4 host' ≡ some bs)
SameHost a domain host host' = host' ≡ host
SameHost a ipv6 host host' =
    (bs : Bytes) × (a.make_address_v6 host ≡ some bs) × (a.make_address_v6 host' ≡ some bs)
SameHost a (other b) host host' = ⊥

pub record SameTarget (a : Asio) (t t' : TargetAddress) : Type 0 where
  pub same_type : t'.type ≡ t.type
  pub same_port : t'.port ≡ t.port
  pub same_host : SameHost a t.type t.host t'.host

module _ (a : Asio) where
  -- The text that the parser writes for a host that was encoded as `raw`.
  record Written (type : AddressType) (host raw : Bytes) : Type 0 where
    text : Bytes
    fits : HostFits type text
    encodes : encode_host a type text ≡ ok raw
    same : SameHost a type host text

  encode_host-Written :
      (type : AddressType) (host raw : Bytes)
      → IsAsio a
      → GivesBytes a
      → encode_host a type host ≡ ok raw
      → Written type host raw
  unfolding encode_host
  encode_host-Written ipv4 host raw v g e = elim (Option-cases (a.make_address_v4 host)) [
    | inl f ↦ absurd (ground arith)
    | inr (bs, f) ↦
        let (n, bytes) = g.gives_v4 host bs f in
        let is_raw : bs ≡ raw = ground arith in
        record {
          text = ipv4_text bs;
          fits = (bs, n, bytes, refl);
          encodes = rw (v.reads_v4 bs n bytes) (ap ok is_raw);
          same = (bs, f, v.reads_v4 bs n bytes);
        }
  ]
  encode_host-Written domain host raw v g e = elim (Bool-cases (ltb 255 (length host))) [
    | inl f ↦ absurd (ground arith)
    | inr f ↦ record {
      text = host;
      fits = ltb_false→le 255 (length host) f;
      encodes = e;
      same = refl;
    }
  ]
  encode_host-Written ipv6 host raw v g e = elim (Option-cases (a.make_address_v6 host)) [
    | inl f ↦ absurd (ground arith)
    | inr (bs, f) ↦
        let (n, bytes) = g.gives_v6 host bs f in
        let is_raw : bs ≡ raw = ground arith in
        record {
          text = ipv6_text bs;
          fits = (bs, n, bytes, refl);
          encodes = rw (v.reads_v6 bs n bytes) (ap ok is_raw);
          same = (bs, f, v.reads_v6 bs n bytes);
        }
  ]
  encode_host-Written (other b) host raw v g e = absurd (ground arith)

  -- What follows an encoded address is left by the parser, which reads the same target.
  pub parse_ss_address-SameTarget :
      (t : TargetAddress) (front rest : Bytes)
      → IsAsio a
      → GivesBytes a
      → t.port < 65536
      → encode_ss_address a t ≡ ok front
      → (t' : TargetAddress) × (parse_ss_address (front ++ rest) ≡ (some t', rest))
        × SameTarget a t t'
  unfolding encode_ss_address
  parse_ss_address-SameTarget t front rest v g p e =
      let (raw, enc, whole) =
        bind_ok (encode_host a t.type t.host)
          (λ host. ok (type_byte t.type ∷ (host ++ be16 t.port))) front e in
      let w = encode_host-Written t.type t.host raw v g enc in
      let t' = record t { host = w.text } in
      let (out, enc', dec) =
        parse_ss_address-encode_ss_address a t' rest v
          (record { host_fits = w.fits; port_fits = p }) in
      let again : encode_ss_address a t' ≡ ok front = rw w.encodes whole in
      let is : out ≡ front = ground arith in
      (
        t',
        ap (λ x. parse_ss_address (x ++ rest)) (sym is) ∙ dec,
        record { same_type = refl; same_port = refl; same_host = w.same },
      )
