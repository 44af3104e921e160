-- ===== src/Tests/Chap.antt =====
-- A challenge and a response of CHAP.
use tgt.Base.{ℕ, zero, suc, ◌<◌, ◌≤◌, ◌≡◌, refl, some, List, [], ◌∷◌, arith, length, text}
use tgt.Iscsi.Base64.{decode_base64_digit, decode_base64_string, encode_base64_string, encode_group}
use tgt.Iscsi.Base64RoundTrip.{decode_base64_string-encode_base64_string}
use tgt.Iscsi.Chap.{base64_format, chap_check_encoding_format, decode_len, chap_decode_string}
use tgt.Iscsi.ChapBounds.{chap_decode_string-challenge}
use tgt.Iscsi.ChapOverflow.{IsPlain, chap_decode_string-overflows}

encoded : encode_base64_string (text "any carnal pleas") ≡ text "YW55IGNhcm5hbCBwbGVhcw=="
unfolding encode_base64_string encode_group
encoded = refl

decode_base64_string-encode_base64_string_example :
    decode_base64_string (encode_base64_string (0 ∷ 255 ∷ 128 ∷ 7 ∷ [])) ≡ 0 ∷ 255 ∷ 128 ∷ 7 ∷ []
decode_base64_string-encode_base64_string_example =
    decode_base64_string-encode_base64_string (0 ∷ 255 ∷ 128 ∷ 7 ∷ [])
      (omega arith, (omega arith, (omega arith, (omega arith, tt))))

-- Three bytes less one, in base64.
abbrev challenge : List ℕ
challenge = text "0bYW5=YW4="

challenge_format : chap_check_encoding_format challenge ≡ some base64_format
unfolding chap_check_encoding_format
challenge_format = refl

challenge_len : decode_len base64_format challenge ≡ some 5
unfolding decode_len
challenge_len = refl

chap_decode_string-challenge_example :
    (bytes : List ℕ) × (chap_decode_string challenge 5 base64_format ≡ some bytes)
    × (length bytes ≤ 5)
chap_decode_string-challenge_example =
    chap_decode_string-challenge challenge base64_format 5 challenge_format challenge_len

-- 24 characters for an MD5 digest of 16 bytes.
abbrev letters : ℕ → List ℕ
letters zero = []
letters (suc n) = b'A' ∷ letters n

letters-IsPlain : (n : ℕ) → IsPlain (letters n)
unfolding decode_base64_digit
letters-IsPlain zero = tt
letters-IsPlain (suc n) = (omega arith, letters-IsPlain n)

chap_decode_string-overflows_example :
    (bytes : List ℕ) × (chap_decode_string (b'0' ∷ b'b' ∷ letters 24) 16 base64_format ≡ some bytes)
    × (16 < length bytes)
chap_decode_string-overflows_example =
    chap_decode_string-overflows b'0' b'b' 16 (letters 24) (omega arith) (λ e. omega (arith, e))
      (omega arith) (letters-IsPlain 24)
