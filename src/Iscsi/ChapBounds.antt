-- ===== src/Iscsi/ChapBounds.antt =====
-- The buffers that the CHAP code of usr/iscsi/chap.c decodes into.
use mathlib.Core.List.{reverse, reverse_aux}
use tgt.Base.{
  ℕ, zero, suc, ◌+◌, ◌-◌, ◌*◌, ◌/◌, ◌%◌, ◌≤◌, ◌≡◌, refl, ap, true, false, some, List, [], ◌∷◌,
  arith, length, length-append, ltb, ◌==◌, if◌then◌else◌, inl, inr, Bool-cases,
}
use tgt.Iscsi.Base64.{
  decode_base64_digit, last_group, is_bad_group, decode_groups, decode_base64_string,
}
use tgt.Iscsi.Chap.{
  Encoding, hex_format, base64_format, chap_check_encoding_format, is_pad, some_length, decode_len,
  hex_bytes, zeros, decode_hex_string, drop_two, chap_decode_string,
}

decode_base64_digit-pad : (c : ℕ) → (c == b'=') ≡ true → decode_base64_digit c ≡ 64
unfolding decode_base64_digit
decode_base64_digit-pad c h = rw h refl

length-last_group :
    (n0 n1 n2 n3 : ℕ)
    → length (last_group n0 n1 n2 n3) + (if n2 == 64 then 1 else 0) + (if n3 == 64 then 1 else 0)
      ≤ 3
unfolding last_group
length-last_group n0 n1 n2 n3 = ground arith

length-last_group_pads :
    (c0 c1 c2 c3 : ℕ)
    → length (
          last_group
            (decode_base64_digit c0)
            (decode_base64_digit c1)
            (decode_base64_digit c2)
            (decode_base64_digit c3))
        + (if c2 == b'=' then 1 else 0)
        + (if c3 == b'=' then 1 else 0)
      ≤ 3
length-last_group_pads c0 c1 c2 c3 = ground (
  arith,
  length-last_group (decode_base64_digit c0) (decode_base64_digit c1) (decode_base64_digit c2)
      (decode_base64_digit c3),
  decode_base64_digit-pad c2,
  decode_base64_digit-pad c3,
)

is_pad_le : (s : List ℕ) (i : ℕ) → is_pad s i ≤ 1
is_pad_le s i = ground arith

-- In the `m + 1` groups of a string every `=` in the last two places stands for a byte less.
length-decode_groups :
    (m : ℕ) (s : List ℕ)
    → length s ≡ 4 * (m + 1)
    → length (decode_groups s) + is_pad s (4 * m + 2) + is_pad s (4 * m + 3) ≤ 3 * (m + 1)
unfolding decode_groups
length-decode_groups m [] h = absurd (omega (arith, h))
length-decode_groups m (c0 ∷ []) h = absurd (omega (arith, h))
length-decode_groups m (c0 ∷ c1 ∷ []) h = absurd (omega (arith, h))
length-decode_groups m (c0 ∷ c1 ∷ c2 ∷ []) h = absurd (omega (arith, h))
length-decode_groups zero (c0 ∷ c1 ∷ c2 ∷ c3 ∷ []) h = length-last_group_pads c0 c1 c2 c3
length-decode_groups (suc m) (c0 ∷ c1 ∷ c2 ∷ c3 ∷ []) h = absurd (omega (arith, h))
length-decode_groups zero (c0 ∷ c1 ∷ c2 ∷ c3 ∷ c4 ∷ s) h = absurd (omega (arith, h))
length-decode_groups (suc m) (c0 ∷ c1 ∷ c2 ∷ c3 ∷ c4 ∷ s) h =
    let rest = length-decode_groups m (c4 ∷ s) (omega (arith, h)) in
    rw (index 2, index 3)
      (elim (Bool-cases (
        is_bad_group (decode_base64_digit c0) (decode_base64_digit c1) (decode_base64_digit c2)
          (decode_base64_digit c3))) [
            | inl bad ↦
                rw bad
                  (omega (arith, is_pad_le (c4 ∷ s) (4 * m + 2), is_pad_le (c4 ∷ s) (4 * m + 3)))
            | inr good ↦ rw good (omega (arith, rest))
          ])
  where
    index : (k : ℕ) → 4 * suc m + k ≡ suc (suc (suc (suc (4 * m + k))))
    index k = omega arith

length-hex_bytes : (x : ℕ) (s : List ℕ) → length (hex_bytes x s) ≡ (length s + 1) / 2
unfolding hex_bytes
length-hex_bytes x [] = omega arith
length-hex_bytes x (lo ∷ []) = omega arith
length-hex_bytes x (lo ∷ hi ∷ s) = omega (arith, length-hex_bytes x s)

length-zeros : (n : ℕ) → length (zeros n) ≡ n
length-zeros zero = refl
length-zeros (suc n) = omega (arith, length-zeros n)

length-drop_two : (s : List ℕ) → length (drop_two s) ≡ length s - 2
length-drop_two [] = omega arith
length-drop_two (c ∷ []) = omega arith
length-drop_two (c ∷ d ∷ s) = omega arith

length-reverse_aux : (s acc : List ℕ) → length (reverse_aux s acc) ≡ length s + length acc
length-reverse_aux [] acc = omega arith
length-reverse_aux (c ∷ s) acc = omega (arith, length-reverse_aux s (c ∷ acc))

length-decode_hex_string :
    (x : ℕ) (s : List ℕ) (n : ℕ) → (length s + 1) / 2 ≤ n → length (decode_hex_string x s n) ≡ n
unfolding decode_hex_string
length-decode_hex_string x s n h = omega (
  arith,
  h,
  length-append (hex_bytes x (reverse s)) (zeros (n - length (hex_bytes x (reverse s)))),
  length-zeros (n - length (hex_bytes x (reverse s))),
  length-hex_bytes x (reverse s),
  length-reverse_aux s [],
)

long_enough : (s : List ℕ) (f : Encoding) → chap_check_encoding_format s ≡ some f → 3 ≤ length s
unfolding chap_check_encoding_format
long_enough s f h = ground (arith, h)

some_length-some : (k n : ℕ) → some_length k ≡ some n → (k ≡ n) × (1 ≤ n)
some_length-some k n h = ground (arith, h)

length-decode_base64_string :
    (m : ℕ) (t : List ℕ)
    → length t ≡ 4 * (m + 1)
    → length (decode_base64_string t) + is_pad t (4 * m + 2) + is_pad t (4 * m + 3) ≤ 3 * (m + 1)
unfolding decode_base64_string
length-decode_base64_string m t h = rw four (length-decode_groups m t h)
  where
    four : (length t % 4 == 0) ≡ true
    four = ground (arith, h)

hex_challenge :
    (c d : ℕ) (t : List ℕ) (n : ℕ)
    → 1 ≤ length t
    → decode_len hex_format (c ∷ d ∷ t) ≡ some n
    → (bytes : List ℕ) × (chap_decode_string (c ∷ d ∷ t) n hex_format ≡ some bytes)
      × (length bytes ≤ n)
unfolding decode_len chap_decode_string
hex_challenge c d t n long size =
    let (same, positive) = some_length-some _ n size in
    let room : ltb (2 * n) (length (c ∷ d ∷ t) - 2) ≡ false = ground (arith, same, long) in
    (
      decode_hex_string d t n,
      rw room refl,
      omega (arith, length-decode_hex_string d t n (omega (arith, same, long))),
    )

pub ltb_no : (a b : ℕ) → b ≤ a → ltb a b ≡ false
ltb_no a b h = ground (arith, h)

-- The size of the buffer in terms of the characters after the prefix.
base64_len :
    (c d : ℕ) (t : List ℕ) (m n : ℕ)
    → length t ≡ 4 * (m + 1)
    → decode_len base64_format (c ∷ d ∷ t) ≡ some n
    → (3 * (m + 1) - is_pad t (4 * m + 3) - is_pad t (4 * m + 2) ≡ n) × (1 ≤ n)
unfolding decode_len
base64_len c d t m n h size =
    let (same, positive) = some_length-some _ n (simp whole at size) in
    (omega (arith, same, h, last, before_last), positive)
  where
    whole : ((length (c ∷ d ∷ t) - 2) % 4 == 0) ≡ true
    whole = ground (arith, h)

    last : is_pad (c ∷ d ∷ t) (length (c ∷ d ∷ t) - 2 + 1) ≡ is_pad t (4 * m + 3)
    last =
        let at : length (c ∷ d ∷ t) - 2 + 1 ≡ suc (suc (4 * m + 3)) = omega (arith, h) in
        ap (λ k. is_pad (c ∷ d ∷ t) k) at

    before_last : is_pad (c ∷ d ∷ t) (length (c ∷ d ∷ t) - 2) ≡ is_pad t (4 * m + 2)
    before_last =
        let at : length (c ∷ d ∷ t) - 2 ≡ suc (suc (4 * m + 2)) = omega (arith, h) in
        ap (λ k. is_pad (c ∷ d ∷ t) k) at

base64_challenge :
    (c d : ℕ) (t : List ℕ) (n : ℕ)
    → 1 ≤ length t
    → decode_len base64_format (c ∷ d ∷ t) ≡ some n
    → (bytes : List ℕ) × (chap_decode_string (c ∷ d ∷ t) n base64_format ≡ some bytes)
      × (length bytes ≤ n)
unfolding decode_len chap_decode_string
base64_challenge c d t n long size = elim (Bool-cases ((length (c ∷ d ∷ t) - 2) % 4 == 0)) [
  | inr e ↦ absurd (ground (arith, e, size))
  | inl e ↦
      let m = length t / 4 - 1 in
      let whole : length t ≡ 4 * (m + 1) = ground (arith, e, long) in
      let (same, positive) = base64_len c d t m n whole size in
      let short = length-decode_base64_string m t whole in
      let pads2 = is_pad_le t (4 * m + 2) in
      let pads3 = is_pad_le t (4 * m + 3) in
      let room : ltb (((n - 1) / 3 + 1) * 4) (length (c ∷ d ∷ t) - 2) ≡ false =
        ltb_no _ _ (omega (arith, same, whole, pads2, pads3)) in
      (decode_base64_string t, rw room refl, omega (arith, same, short))
]

-- A challenge is decoded into the buffer that was allocated for it: in either format no more is
-- written than its size, and the decoding is not refused.
pub chap_decode_string-challenge :
    (s : List ℕ) (f : Encoding) (n : ℕ)
    → chap_check_encoding_format s ≡ some f
    → decode_len f s ≡ some n
    → (bytes : List ℕ) × (chap_decode_string s n f ≡ some bytes) × (length bytes ≤ n)
chap_decode_string-challenge [] f n format size = absurd (omega (arith, long_enough [] f format))
chap_decode_string-challenge (c ∷ []) f n format size =
    absurd (omega (arith, long_enough (c ∷ []) f format))
chap_decode_string-challenge (c ∷ d ∷ t) hex_format n format size =
    hex_challenge c d t n (omega (arith, long_enough (c ∷ d ∷ t) hex_format format)) size
chap_decode_string-challenge (c ∷ d ∷ t) base64_format n format size =
    base64_challenge c d t n (omega (arith, long_enough (c ∷ d ∷ t) base64_format format)) size
