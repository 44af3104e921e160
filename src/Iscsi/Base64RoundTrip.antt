-- ===== src/Iscsi/Base64RoundTrip.antt =====
-- What `encode_base64_string` of usr/iscsi/chap.c writes is what `decode_base64_string` reads.
use Prim.Native.Nat.{bit_or}
use mathlib.Core.List.{append-nil}
use tgt.Base.{
  ℕ, ◌+◌, ◌*◌, ◌/◌, ◌%◌, ◌^◌, ◌<◌, ◌≡◌, refl, ◌∙◌, ap, true, false, List, [], ◌∷◌, ◌++◌, arith,
  length, All, ◌==◌, ==_iff, shifted_or, holds_below, holds_below_lem,
}
use tgt.Iscsi.Base64.{
  decode_base64_digit, octets_of, three_bytes, first_byte, second_byte, last_group, is_bad_group,
  decode_groups, decode_base64_string, base64code, encode_group, encode_base64_string,
}

base64code_table : holds_below (λ v. decode_base64_digit (base64code v) == v) 65 ≡ true
unfolding decode_base64_digit
base64code_table = refl

decode_base64_digit-base64code : (v : ℕ) → v < 65 → decode_base64_digit (base64code v) ≡ v
decode_base64_digit-base64code v h =
    (==_iff _ v).0
      (holds_below_lem (λ v. decode_base64_digit (base64code v) == v) 65 v base64code_table h)

octets_of-sum :
    (n0 n1 n2 n3 : ℕ)
    → n0 < 64
    → n1 < 64
    → n2 < 64
    → n3 < 64
    → octets_of n0 n1 n2 n3 ≡ n0 * 262144 + n1 * 4096 + n2 * 64 + n3
unfolding octets_of
octets_of-sum n0 n1 n2 n3 h0 h1 h2 h3 =
    let one : bit_or (n0 * 2 ^ 18) (n1 * 2 ^ 12) ≡ (n0 * 64 + n1) * 2 ^ 12 =
      omega (arith, shifted_or 18 n0 (n1 * 2 ^ 12) (omega (arith, h1))) in
    let two : bit_or (bit_or (n0 * 2 ^ 18) (n1 * 2 ^ 12)) (n2 * 2 ^ 6)
        ≡ (n0 * 4096 + n1 * 64 + n2) * 2 ^ 6 =
      rw one (omega (arith, shifted_or 12 (n0 * 64 + n1) (n2 * 2 ^ 6) (omega (arith, h2)))) in
    rw two (omega (arith, shifted_or 6 (n0 * 4096 + n1 * 64 + n2) n3 (omega (arith, h3))))

group-sum :
    (a b c : ℕ)
    → b < 256
    → c < 256
    → bit_or (bit_or (a * 2 ^ 16) (b * 2 ^ 8)) c ≡ a * 65536 + b * 256 + c
group-sum a b c hb hc =
    let one : bit_or (a * 2 ^ 16) (b * 2 ^ 8) ≡ (a * 256 + b) * 2 ^ 8 =
      omega (arith, shifted_or 16 a (b * 2 ^ 8) (omega (arith, hb))) in
    rw one (omega (arith, shifted_or 8 (a * 256 + b) c hc))

three_bytes-sum :
    (a b c : ℕ)
    → a < 256
    → b < 256
    → c < 256
    → three_bytes (a * 65536 + b * 256 + c) ≡ a ∷ b ∷ c ∷ []
three_bytes-sum a b c ha hb hc = rw (first, second, third) refl
  where
    first : (a * 65536 + b * 256 + c) / 2 ^ 16 % 256 ≡ a
    first = omega (arith, ha, hb, hc)

    second : (a * 65536 + b * 256 + c) / 2 ^ 8 % 256 ≡ b
    second = omega (arith, ha, hb, hc)

    third : (a * 65536 + b * 256 + c) % 256 ≡ c
    third = omega (arith, ha, hb, hc)

octets_of-digits :
    (x : ℕ)
    → x < 16777216
    → octets_of (x / 2 ^ 18 % 64) (x / 2 ^ 12 % 64) (x / 2 ^ 6 % 64) (x % 64) ≡ x
octets_of-digits x h =
    octets_of-sum (x / 2 ^ 18 % 64) (x / 2 ^ 12 % 64) (x / 2 ^ 6 % 64) (x % 64) (omega arith)
      (omega arith) (omega arith) (omega arith)
    ∙ omega (arith, h)

-- The number that a group of three bytes stands for, and its digits read back.
group_number :
    (a b c : ℕ)
    → a < 256
    → b < 256
    → c < 256
    → (x : ℕ) × (x < 16777216)
      × (three_bytes x ≡ a ∷ b ∷ c ∷ [])
      × (encode_group a b c
          ≡ base64code (x / 2 ^ 18 % 64)
            ∷ base64code (x / 2 ^ 12 % 64)
            ∷ base64code (x / 2 ^ 6 % 64)
            ∷ base64code (x % 64)
            ∷ [])
unfolding encode_group
group_number a b c ha hb hc = (
  a * 65536 + b * 256 + c,
  omega (arith, ha, hb, hc),
  three_bytes-sum a b c ha hb hc,
  rw (group-sum a b c hb hc) refl,
)

pub last_group-full :
    (n0 n1 n2 n3 : ℕ)
    → n0 < 64
    → n1 < 64
    → n2 < 64
    → n3 < 64
    → last_group n0 n1 n2 n3 ≡ three_bytes (octets_of n0 n1 n2 n3)
unfolding last_group
last_group-full n0 n1 n2 n3 h0 h1 h2 h3 = ground (arith, h0, h1, h2, h3)

pub is_bad_group_no :
    (n0 n1 n2 n3 : ℕ) → n0 < 64 → n1 < 64 → n2 < 64 → n3 < 64 → is_bad_group n0 n1 n2 n3 ≡ false
is_bad_group_no n0 n1 n2 n3 h0 h1 h2 h3 = ground (arith, h0, h1, h2, h3)

decode_groups-group :
    (a b c : ℕ) → a < 256 → b < 256 → c < 256 → decode_groups (encode_group a b c) ≡ a ∷ b ∷ c ∷ []
unfolding decode_groups
decode_groups-group a b c ha hb hc =
    let (x, lt, bytes, code) = group_number a b c ha hb hc in
    rw code (
      rw
        (
          decode_base64_digit-base64code (x / 2 ^ 18 % 64) (omega arith),
          decode_base64_digit-base64code (x / 2 ^ 12 % 64) (omega arith),
          decode_base64_digit-base64code (x / 2 ^ 6 % 64) (omega arith),
          decode_base64_digit-base64code (x % 64) (omega arith),
        )
        (last_group-full _ _ _ _ (omega arith) (omega arith) (omega arith) (omega arith)
          ∙ ap three_bytes (octets_of-digits x lt)
          ∙ bytes))

decode_groups-more :
    (a b c d : ℕ) (s : List ℕ)
    → a < 256
    → b < 256
    → c < 256
    → decode_groups (encode_group a b c ++ (d ∷ s)) ≡ a ∷ b ∷ c ∷ decode_groups (d ∷ s)
unfolding decode_groups
decode_groups-more a b c d s ha hb hc =
    let (x, lt, bytes, code) = group_number a b c ha hb hc in
    rw code (
      rw
        (
          decode_base64_digit-base64code (x / 2 ^ 18 % 64) (omega arith),
          decode_base64_digit-base64code (x / 2 ^ 12 % 64) (omega arith),
          decode_base64_digit-base64code (x / 2 ^ 6 % 64) (omega arith),
          decode_base64_digit-base64code (x % 64) (omega arith),
        )
        (rw
          (is_bad_group_no (x / 2 ^ 18 % 64) (x / 2 ^ 12 % 64) (x / 2 ^ 6 % 64) (x % 64)
            (omega arith) (omega arith) (omega arith) (omega arith))
          (rw (octets_of-digits x lt) (ap (λ bs. bs ++ decode_groups (d ∷ s)) bytes))))

-- One or two bytes at the end.
last_group-one : (n0 n1 : ℕ) → n0 < 64 → n1 < 64 → last_group n0 n1 64 64 ≡ first_byte n0 n1 ∷ []
unfolding last_group
last_group-one n0 n1 h0 h1 = ground (arith, h0, h1)

last_group-two :
    (n0 n1 n2 : ℕ)
    → n0 < 64
    → n1 < 64
    → n2 < 64
    → last_group n0 n1 n2 64 ≡ first_byte n0 n1 ∷ second_byte n1 n2 ∷ []
unfolding last_group
last_group-two n0 n1 n2 h0 h1 h2 = ground (arith, h0, h1, h2)

first_byte-sum : (n0 n1 : ℕ) → n0 < 64 → n1 < 64 → first_byte n0 n1 ≡ n0 * 4 + n1 / 16
unfolding first_byte
first_byte-sum n0 n1 h0 h1 = omega (arith, h0, h1, shifted_or 2 n0 (n1 / 2 ^ 4) (omega (arith, h1)))

second_byte-sum : (n1 n2 : ℕ) → n1 < 64 → n2 < 64 → second_byte n1 n2 ≡ n1 % 16 * 16 + n2 / 4
unfolding second_byte
second_byte-sum n1 n2 h1 h2 =
    omega (arith, h1, h2, shifted_or 4 n1 (n2 / 2 ^ 2) (omega (arith, h2)))

decode_groups-one : (a : ℕ) → a < 256 → decode_groups (encode_base64_string (a ∷ [])) ≡ a ∷ []
unfolding decode_groups encode_base64_string
decode_groups-one a h =
    rw
      (
        decode_base64_digit-base64code (a / 2 ^ 2 % 64) (omega arith),
        decode_base64_digit-base64code (a % 4 * 2 ^ 4) (omega arith),
        decode_base64_digit-base64code 64 (omega arith),
      )
      (last_group-one _ _ (omega arith) (omega arith)
        ∙ ap (λ x. x ∷ [])
            (first_byte-sum (a / 2 ^ 2 % 64) (a % 4 * 2 ^ 4) (omega arith) (omega arith)
              ∙ omega (arith, h)))

decode_groups-two :
    (a b : ℕ) → a < 256 → b < 256 → decode_groups (encode_base64_string (a ∷ b ∷ [])) ≡ a ∷ b ∷ []
unfolding decode_groups encode_base64_string
decode_groups-two a b ha hb =
    rw
      (
        middle,
        decode_base64_digit-base64code (a / 2 ^ 2 % 64) (omega arith),
        decode_base64_digit-base64code (a % 4 * 16 + b / 16) (omega (arith, hb)),
        decode_base64_digit-base64code (b % 16 * 2 ^ 2) (omega arith),
        decode_base64_digit-base64code 64 (omega arith),
      )
      (last_group-two (a / 2 ^ 2 % 64) (a % 4 * 16 + b / 16) (b % 16 * 2 ^ 2) (omega arith)
          (omega (arith, hb)) (omega arith)
        ∙ rw (one, two) refl)
  where
    middle : bit_or (a % 4 * 2 ^ 4) (b / 2 ^ 4 % 16) ≡ a % 4 * 16 + b / 16
    middle = omega (arith, hb, shifted_or 4 (a % 4) (b / 2 ^ 4 % 16) (omega arith))

    one : first_byte (a / 2 ^ 2 % 64) (a % 4 * 16 + b / 16) ≡ a
    one = first_byte-sum _ _ (omega arith) (omega (arith, hb)) ∙ omega (arith, ha, hb)

    two : second_byte (a % 4 * 16 + b / 16) (b % 16 * 2 ^ 2) ≡ b
    two = second_byte-sum _ _ (omega (arith, hb)) (omega arith) ∙ omega (arith, ha, hb)

encode_base64_string-cons :
    (a : ℕ) (bs : List ℕ) → (c : ℕ) × (s : List ℕ) × (encode_base64_string (a ∷ bs) ≡ c ∷ s)
unfolding encode_base64_string encode_group
encode_base64_string-cons a [] = (_, _, refl)
encode_base64_string-cons a (b ∷ []) = (_, _, refl)
encode_base64_string-cons a (b ∷ c ∷ bs) = (_, _, refl)

decode_groups-nil : decode_groups [] ≡ []
unfolding decode_groups
decode_groups-nil = refl

decode_groups-encode_base64_string :
    (bs : List ℕ) → All (λ b. b < 256) bs → decode_groups (encode_base64_string bs) ≡ bs
unfolding encode_base64_string
decode_groups-encode_base64_string [] h = decode_groups-nil
decode_groups-encode_base64_string (a ∷ []) h = decode_groups-one a h.0
decode_groups-encode_base64_string (a ∷ b ∷ []) h = decode_groups-two a b h.0 h.1.0
decode_groups-encode_base64_string (a ∷ b ∷ c ∷ []) h =
    ap decode_groups (append-nil _) ∙ decode_groups-group a b c h.0 h.1.0 h.1.1.0
decode_groups-encode_base64_string (a ∷ b ∷ c ∷ d ∷ bs) h =
    let (e, s, eq) = encode_base64_string-cons d bs in
    rw eq (
      decode_groups-more a b c e s h.0 h.1.0 h.1.1.0
      ∙ rw (← eq) (ap (λ x. a ∷ b ∷ c ∷ x) (decode_groups-encode_base64_string (d ∷ bs) h.1.1.1)))

length-encode_base64_string : (bs : List ℕ) → length (encode_base64_string bs) % 4 ≡ 0
unfolding encode_base64_string encode_group
length-encode_base64_string [] = omega arith
length-encode_base64_string (a ∷ []) = omega arith
length-encode_base64_string (a ∷ b ∷ []) = omega arith
length-encode_base64_string (a ∷ b ∷ c ∷ bs) = omega (arith, length-encode_base64_string bs)

-- The decoding of the encoding of some bytes writes these bytes and no others.
pub decode_base64_string-encode_base64_string :
    (bs : List ℕ) → All (λ b. b < 256) bs → decode_base64_string (encode_base64_string bs) ≡ bs
unfolding decode_base64_string
decode_base64_string-encode_base64_string bs h =
    ground (arith, length-encode_base64_string bs, decode_groups-encode_base64_string bs h)
