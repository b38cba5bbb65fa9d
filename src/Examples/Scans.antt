-- ===== src/Examples/Scans.antt =====
-- What the scan of src/OpenVpnClient.cpp finds in some files.
use ovpn2ss.Common.{◌↔◌, inl, inr, All, arith, List, ◌≡◌, refl, true, false, [], ◌∷◌, codes, same}
use ovpn2ss.OpenVpn.Scan.{scan_ovpn_for_non_aead_cipher}
use ovpn2ss.OpenVpn.Scanned.{scan_ovpn_for_non_aead_cipher-file_text}
use ovpn2ss.OpenVpn.Lines.{Line, cipher_line, other_line, file_text}
use ovpn2ss.OpenVpn.Accepted.{IsAead}

indented : scan_ovpn_for_non_aead_cipher (codes "\n \tCipher  AES-256-CBC") ≡ true
unfolding scan_ovpn_for_non_aead_cipher same
indented = refl

option_without_name : scan_ovpn_for_non_aead_cipher (codes "cipher \n") ≡ false
unfolding scan_ovpn_for_non_aead_cipher same
option_without_name = refl

not_at_line_start : scan_ovpn_for_non_aead_cipher (codes "x cipher BF-CBC\n") ≡ false
unfolding scan_ovpn_for_non_aead_cipher same
not_at_line_start = refl

-- OpenVPN's own option is not found, and a name in lower case is refused.
data_ciphers : scan_ovpn_for_non_aead_cipher (codes "data-ciphers AES-256-CBC\n") ≡ false
unfolding scan_ovpn_for_non_aead_cipher same
data_ciphers = refl

lower_case : scan_ovpn_for_non_aead_cipher (codes "cipher aes-256-gcm\n") ≡ true
unfolding scan_ovpn_for_non_aead_cipher same
lower_case = refl

-- A file with carriage returns: an option of one word, and a cipher behind an indented option.
abbrev lines : List Line
lines =
    other_line [] (codes "client") [] 13
    ∷ cipher_line (10 ∷ 32 ∷ []) (codes "Data-Cipher") (codes " ") (codes "BF") (codes " x") 13
    ∷ []

scan_ovpn_for_non_aead_cipher-file_text_example :
    (scan_ovpn_for_non_aead_cipher (file_text (10 ∷ []) lines) ≡ false)
    ↔ All IsAead (codes "BF" ∷ [])
scan_ovpn_for_non_aead_cipher-file_text_example =
    scan_ovpn_for_non_aead_cipher-file_text lines (10 ∷ [])
      (
        (
          tt,
          (refl, (refl, (refl, (refl, (refl, (refl, (refl, tt))))))),
          (λ e. ground arith),
          (λ e. ground arith),
          (refl, tt, refl),
        ),
        (
          (
            (refl, (refl, tt)),
            inr refl,
            (refl, (inl refl, tt)),
            (refl, (refl, (refl, tt))),
            (refl, (refl, (refl, tt)), refl),
          ),
          tt,
        ),
      )
      (refl, tt)
