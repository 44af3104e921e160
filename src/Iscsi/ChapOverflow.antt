-- ===== src/Iscsi/ChapOverflow.antt =====
-- A CHAP response of usr/iscsi/chap.c that is longer than the digest.
use tgt.Base.{
  ℕ, zero, suc, ◌+◌, ◌-◌, ◌*◌, ◌/◌, ◌%◌, ◌<◌, ◌≤◌, ◌≡◌, ◌≢◌, refl, true, false, some, List, [], ◌∷◌,
  arith, length, All, ltb, ◌==◌,
}
use tgt.Iscsi.Base64.{decode_base64_digit, decode_groups, decode_base64_string}
use tgt.Iscsi.Base64RoundTrip.{last_group-full, is_bad_group_no}
use tgt.Iscsi.Chap.{base64_format, chap_decode_string}
use tgt.Iscsi.ChapBounds.{ltb_no}

-- Characters that stand for six bits: neither `=` nor one outside the alphabet.
abbrev pub IsPlain : List ℕ → Type 0
IsPlain s = All (λ c. decode_base64_digit c < 64) s

length-plain_groups :
    (m : ℕ) (s : List ℕ)
    → length s ≡ 4 * (m + 1)
    → IsPlain s
    → length (decode_groups s) ≡ 3 * (m + 1)
unfolding decode_groups
length-plain_groups m [] h p = absurd (omega (arith, h))
length-plain_groups m (c0 ∷ []) h p = absurd (omega (arith, h))
length-plain_groups m (c0 ∷ c1 ∷ []) h p = absurd (omega (arith, h))
length-plain_groups m (c0 ∷ c1 ∷ c2 ∷ []) h p = absurd (omega (arith, h))
length-plain_groups zero (c0 ∷ c1 ∷ c2 ∷ c3 ∷ []) h p =
    rw (last_group-full _ _ _ _ p.0 p.1.0 p.1.1.0 p.1.1.1.0) (omega arith)
length-plain_groups (suc m) (c0 ∷ c1 ∷ c2 ∷ c3 ∷ []) h p = absurd (omega (arith, h))
length-plain_groups zero (c0 ∷ c1 ∷ c2 ∷ c3 ∷ c4 ∷ s) h p = absurd (omega (arith, h))
length-plain_groups (suc m) (c0 ∷ c1 ∷ c2 ∷ c3 ∷ c4 ∷ s) h p =
    rw (is_bad_group_no _ _ _ _ p.0 p.1.0 p.1.1.0 p.1.1.1.0)
      (omega (arith, length-plain_groups m (c4 ∷ s) (omega (arith, h)) p.1.1.1.1))

-- A response in base64, without padding and as long as the check allows, is decoded beyond the end
-- of the digest's buffer, for a digest whose size is not a multiple of three.
pub chap_decode_string-overflows :
    (c d n : ℕ) (s : List ℕ)
    → 1 ≤ n
    → n % 3 ≢ 0
    → length s ≡ ((n - 1) / 3 + 1) * 4
    → IsPlain s
    → (bytes : List ℕ) × (chap_decode_string (c ∷ d ∷ s) n base64_format ≡ some bytes)
      × (n < length bytes)
unfolding chap_decode_string decode_base64_string
chap_decode_string-overflows c d n s positive uneven full plain =
    let room : ltb (((n - 1) / 3 + 1) * 4) (length (c ∷ d ∷ s) - 2) ≡ false =
      ltb_no _ _ (omega (arith, full)) in
    let whole : (length s % 4 == 0) ≡ true = ground (arith, full) in
    let size = length-plain_groups ((n - 1) / 3) s (omega (arith, full)) plain in
    (decode_groups s, rw (room, whole) refl, omega (arith, size, positive, uneven))
