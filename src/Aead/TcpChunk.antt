-- ===== src/Aead/TcpChunk.antt =====
-- What one side seals by encrypt_tcp_chunk, the other opens by decrypt_tcp_chunk.
use ovpn2ss.Common.{
  ℕ, ◌+◌, ◌%◌, ◌^◌, ◌≤◌, ◌≡◌, refl, sym, ap, ◌∙◌, true, some, inl, inr, Bytes, ◌++◌, ltb, length,
  take, drop, arith, Bool-cases, append_assoc, length-append, take-append, drop-append, drop-drop,
  le→ltb_false,
}
use ovpn2ss.Common.Outcome.{ok, Result-cases}
use ovpn2ss.Aead.Crypto.{Crypto, IsCrypto}
use ovpn2ss.Aead.Nonce.{increment_nonce}
use ovpn2ss.Aead.Session.{
  Session, be16, read_be16, client_salt, set_client_salt, derive_subkey, zero_nonce, crypt, decrypt,
  encrypt_tcp_chunk, decrypt_tcp_chunk, seal_chunk, open_payload,
}

module _ (c : Crypto) where
  -- What is known of a call of `crypt` that did not throw.
  pub record Sealed (key nonce input nonce' cipher tag : Bytes) : Type 0 where
    pub stepped : nonce' ≡ increment_nonce nonce
    pub length-cipher : length cipher ≡ length input
    pub length-tag : length tag ≡ 16
    pub opens : decrypt c key nonce cipher tag ≡ some (nonce', input)

  pub crypt-Sealed :
      (key nonce input nonce' cipher tag : Bytes)
      → IsCrypto c
      → crypt c key nonce input ≡ ok (nonce', cipher, tag)
      → Sealed key nonce input nonce' cipher tag
  unfolding crypt decrypt
  crypt-Sealed key nonce input nonce' cipher tag v e = ground (
    arith,
    v.length-encrypt key nonce input cipher tag,
    v.length-tag key nonce input cipher tag,
    v.decrypt-encrypt key nonce input cipher tag,
  )

  -- What is known of a call of `encrypt_tcp_chunk` that did not throw.
  pub record Chunk (plain out : Bytes) (s s' : Session) : Type 0 where
    pub middle : Bytes
    pub len_cipher : Bytes
    pub len_tag : Bytes
    pub cipher : Bytes
    pub tag : Bytes
    pub head : Sealed s.send_key s.send_nonce (be16 (length plain)) middle len_cipher len_tag
    pub body : Sealed s.send_key middle plain s'.send_nonce cipher tag
    pub out_is : out ≡ len_cipher ++ (len_tag ++ (cipher ++ tag))
    pub state_is : s' ≡ record s { send_nonce = s'.send_nonce }
    pub fits : length plain ≤ 0x3fff

  seal_chunk-Chunk :
      (plain out : Bytes) (s s' : Session)
      → IsCrypto c
      → length plain ≤ 0x3fff
      → seal_chunk c plain s ≡ (s', ok out)
      → Chunk plain out s s'
  unfolding seal_chunk
  seal_chunk-Chunk plain out s s' v fits e =
      elim (Result-cases (crypt c s.send_key s.send_nonce (be16 (length plain)))) [
        | inr (x, a) ↦ ground (arith)
        | inl ((n1, lc, lt), a) ↦ elim (Result-cases (crypt c s.send_key n1 plain)) [
          | inr (x, b) ↦ ground (arith)
          | inl ((n2, pc, pt), b) ↦ record {
            middle = n1;
            len_cipher = lc;
            len_tag = lt;
            cipher = pc;
            tag = pt;
            head = crypt-Sealed _ _ _ _ _ _ v a;
            body = crypt-Sealed _ _ _ _ _ _ v (ground arith);
            out_is = ground arith;
            state_is = ground arith;
            fits = fits;
          }
        ]
      ]

  pub encrypt_tcp_chunk-Chunk :
      (plain out : Bytes) (s s' : Session)
      → IsCrypto c
      → encrypt_tcp_chunk c plain s ≡ (s', ok out)
      → Chunk plain out s s'
  unfolding encrypt_tcp_chunk
  encrypt_tcp_chunk-Chunk plain out s s' v e = elim (Bool-cases s.sent_salt) [
    | inr no_salt ↦ cc (rw no_salt at e)
    | inl salted ↦ elim (Bool-cases (ltb 0x3fff (length plain))) [
      | inl long ↦ ground arith
      | inr fits ↦ seal_chunk-Chunk plain out s s' v (ground arith) (ground arith)
    ]
  ]

  -- A chunk is longer than its payload by the two bytes of the length and two tags.
  pub length-encrypt_tcp_chunk :
      (plain out : Bytes) (s s' : Session)
      → IsCrypto c
      → encrypt_tcp_chunk c plain s ≡ (s', ok out)
      → length out ≡ length plain + 34
  length-encrypt_tcp_chunk plain out s s' v e =
      let k = encrypt_tcp_chunk-Chunk plain out s s' v e in
      ap length k.out_is
      ∙ omega (
        arith,
        length-append k.len_cipher (k.len_tag ++ (k.cipher ++ k.tag)),
        length-append k.len_tag (k.cipher ++ k.tag),
        length-append k.cipher k.tag,
        k.head.length-cipher,
        k.head.length-tag,
        k.body.length-cipher,
        k.body.length-tag,
      )

-- The two directions share a key and stand at the same nonce.
pub record Synced (s r : Session) : Type 0 where
  pub ready : r.have_recv_key ≡ true
  pub same_key : r.recv_key ≡ s.send_key
  pub same_nonce : r.recv_nonce ≡ s.send_nonce

-- The cuts that `decrypt_tcp_chunk` makes in a stream that begins with four such parts.
record Cuts (n : ℕ) (head mark body seal rest stream : Bytes) : Type 0 where
  cut_head : take 2 stream ≡ head
  cut_mark : take 16 (drop 2 stream) ≡ mark
  cut_body : take n (drop 18 stream) ≡ body
  cut_seal : take 16 (drop (18 + n) stream) ≡ seal
  cut_rest : drop (18 + n + 16) stream ≡ rest
  long : 18 + n + 16 ≤ length stream

module _ (n : ℕ) (head mark body seal rest : Bytes) where
  abbrev flat : Bytes
  flat = head ++ (mark ++ (body ++ (seal ++ rest)))

  append-flat : (head ++ (mark ++ (body ++ seal))) ++ rest ≡ flat
  append-flat = simp append_assoc

  module _ (h : length head ≡ 2) (m : length mark ≡ 16) (b : length body ≡ n) where
    flat-drop_body : drop 18 flat ≡ body ++ (seal ++ rest)
    flat-drop_body =
        sym (drop-drop 2 16 18 flat (omega arith))
        ∙ ap (drop 16) (drop-append 2 head _ h)
        ∙ drop-append 16 mark _ m

    flat-drop_seal : drop (18 + n) flat ≡ seal ++ rest
    flat-drop_seal =
        sym (drop-drop 18 n _ flat refl) ∙ ap (drop n) flat-drop_body ∙ drop-append n body _ b

    flat-Cuts : length seal ≡ 16 → Cuts n head mark body seal rest flat
    flat-Cuts t = record {
      cut_head = take-append 2 head _ h;
      cut_mark = ap (take 16) (drop-append 2 head _ h) ∙ take-append 16 mark _ m;
      cut_body = ap (take n) flat-drop_body ∙ take-append n body _ b;
      cut_seal = ap (take 16) flat-drop_seal ∙ take-append 16 seal rest t;
      cut_rest =
          sym (drop-drop (18 + n) 16 _ flat refl)
          ∙ ap (drop 16) flat-drop_seal
          ∙ drop-append 16 seal rest t;
      long = omega (
        arith,
        length-append head (mark ++ (body ++ (seal ++ rest))),
        length-append mark (body ++ (seal ++ rest)),
        length-append body (seal ++ rest),
        length-append seal rest,
      );
    }

read_be16-be16 : (n : ℕ) → n ≤ 0x3fff → read_be16 (be16 n) % 2 ^ 14 ≡ n
read_be16-be16 n h = omega arith

module _ (c : Crypto) where
  open_payload-Cuts :
      (n : ℕ) (head mark body seal rest stream plain nonce last : Bytes) (r : Session)
      → Cuts n head mark body seal rest stream
      → decrypt c r.recv_key nonce body seal ≡ some (last, plain)
      → open_payload c n nonce stream r ≡ (record r { recv_nonce = last }, ok (some (plain, rest)))
  unfolding open_payload
  open_payload-Cuts n head mark body seal rest stream plain nonce last r k e =
      rw (k.cut_body, k.cut_seal, e, k.cut_rest, le→ltb_false (length stream) (18 + n + 16) k.long)

  decrypt_tcp_chunk-Cuts :
      (head mark body seal rest stream plain nonce last : Bytes) (r : Session)
      → Cuts (length plain) head mark body seal rest stream
      → length plain ≤ 0x3fff
      → r.have_recv_key ≡ true
      → decrypt c r.recv_key r.recv_nonce head mark ≡ some (nonce, be16 (length plain))
      → decrypt c r.recv_key nonce body seal ≡ some (last, plain)
      → decrypt_tcp_chunk c stream r ≡ (record r { recv_nonce = last }, ok (some (plain, rest)))
  unfolding decrypt_tcp_chunk
  decrypt_tcp_chunk-Cuts head mark body seal rest stream plain nonce last r k fits ready e f =
      let long : 18 ≤ length stream = omega (arith, k.long) in
      simp (
        ready,
        k.cut_head,
        k.cut_mark,
        e,
        le→ltb_false (length stream) 18 long,
        read_be16-be16 (length plain) fits,
        open_payload-Cuts (length plain) head mark body seal rest stream plain nonce last r k f,
      )

  -- The receiver that has opened the chunk behind which the sender is `s'`.
  abbrev pub followed : Session → Session → Session
  followed s' r = record r { recv_nonce = s'.send_nonce }

  pub decrypt_tcp_chunk-followed :
      (plain out rest : Bytes) (s s' r : Session)
      → IsCrypto c
      → Synced s r
      → encrypt_tcp_chunk c plain s ≡ (s', ok out)
      → decrypt_tcp_chunk c (out ++ rest) r ≡ (followed s' r, ok (some (plain, rest)))
  decrypt_tcp_chunk-followed plain out rest s s' r v y e =
      let k = encrypt_tcp_chunk-Chunk c plain out s s' v e in
      let cuts =
        flat-Cuts (length plain) k.len_cipher k.len_tag k.cipher k.tag rest k.head.length-cipher
          k.head.length-tag k.body.length-cipher k.body.length-tag in
      rw (k.out_is, append-flat (length plain) k.len_cipher k.len_tag k.cipher k.tag rest)
        (decrypt_tcp_chunk-Cuts k.len_cipher k.len_tag k.cipher k.tag rest _ plain k.middle
          s'.send_nonce r cuts k.fits y.ready (rw (y.same_key, y.same_nonce) k.head.opens)
          (rw y.same_key k.body.opens))

  pub followed-Synced :
      (plain out : Bytes) (s s' r : Session)
      → IsCrypto c
      → Synced s r
      → encrypt_tcp_chunk c plain s ≡ (s', ok out)
      → Synced s' (followed s' r)
  followed-Synced plain out s s' r v y e =
      let k = encrypt_tcp_chunk-Chunk c plain out s s' v e in
      record {
        ready = y.ready;
        same_key = y.same_key ∙ ap (λ t. t.send_key) (sym k.state_is);
        same_nonce = refl;
      }

  -- With a cipher that keeps its laws and two sides in step, whatever chunk one side seals without
  -- an error, the other opens to the same bytes and leaves in the stream exactly what follows the
  -- chunk; and the two are in step again.
  pub decrypt_tcp_chunk-encrypt_tcp_chunk :
      (plain out rest : Bytes) (s s' r : Session)
      → IsCrypto c
      → Synced s r
      → encrypt_tcp_chunk c plain s ≡ (s', ok out)
      → (r' : Session) × (decrypt_tcp_chunk c (out ++ rest) r ≡ (r', ok (some (plain, rest))))
        × Synced s' r'
  decrypt_tcp_chunk-encrypt_tcp_chunk plain out rest s s' r v y e = (
    followed s' r,
    decrypt_tcp_chunk-followed plain out rest s s' r v y e,
    followed-Synced plain out s s' r v y e,
  )

  -- Whatever salt of 32 bytes one side draws and sends without an error, a side with the same
  -- master key that is given that salt takes it, and the two are in step: the same key, and the
  -- same nonce.
  pub set_client_salt-client_salt :
      (salt sent : Bytes) (s s' r : Session)
      → length salt ≡ 32
      → r.master_key ≡ s.master_key
      → client_salt c (some salt) s ≡ (s', ok sent)
      → (sent ≡ salt) × ((r' : Session) × (set_client_salt c sent r ≡ (r', ok tt)) × Synced s' r')
  unfolding client_salt set_client_salt
  set_client_salt-client_salt salt sent s s' r h same e =
      elim (Result-cases (derive_subkey c salt s.master_key)) [
        | inr (x, d) ↦ ground arith
        | inl (key, d) ↦
            let is_sent : salt ≡ sent = ground arith in
            let keyed : s'.send_key ≡ key = ground arith in
            let zeroed : s'.send_nonce ≡ zero_nonce = ground arith in
            (
              sym is_sent,
              (
                record r { recv_key = key; recv_nonce = zero_nonce; have_recv_key = true },
                rw (← is_sent, same, d, h, set_client_salt) refl,
                record { ready = refl; same_key = sym keyed; same_nonce = sym zeroed },
              ),
            )
      ]
