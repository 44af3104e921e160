-- ===== src/Iscsi/Base64.antt =====
-- The text form of CHAP challenges and responses: `encode_base64_string` and
-- `decode_base64_string` of usr/iscsi/chap.c.
--
-- A string is the list of its characters, as unsigned codes, without the 0 at its end. `char` and
-- `uint8_t` values are below 256; the result of a decoding is what it writes, from the start of the
-- buffer on.
use Prim.Native.Nat.{bit_or}
use tgt.Base.{
  ℕ, ◌+◌, ◌-◌, ◌*◌, ◌/◌, ◌%◌, ◌^◌, Bool, not, ◌&&◌, ◌||◌, List, [], ◌∷◌, ◌++◌, get_or, length, leb,
  ◌==◌, if◌then◌else◌, text,
}

-- `decode_base64_digit`; -1 is 255 as a uint8_t.
unfoldable pub decode_base64_digit : ℕ → ℕ
decode_base64_digit c =
    if c == b'='
    then 64
    else if c == b'/'
    then 63
    else if c == b'+'
    then 62
    else if leb b'A' c && leb c b'Z'
    then c - b'A'
    else if leb b'a' c && leb c b'z'
    then 26 + (c - b'a')
    else if leb b'0' c && leb c b'9'
    then 52 + (c - b'0')
    else 255

-- The number in `octets`, from four digits.
unfoldable pub octets_of : ℕ → ℕ → ℕ → ℕ → ℕ
octets_of n0 n1 n2 n3 = bit_or (bit_or (bit_or (n0 * 2 ^ 18) (n1 * 2 ^ 12)) (n2 * 2 ^ 6)) n3

abbrev pub three_bytes : ℕ → List ℕ
three_bytes octets = octets / 2 ^ 16 % 256 ∷ octets / 2 ^ 8 % 256 ∷ octets % 256 ∷ []

-- The first and the second byte, from two digits each.
unfoldable pub first_byte : ℕ → ℕ → ℕ
first_byte n0 n1 = bit_or (n0 * 2 ^ 2) (n1 / 2 ^ 4) % 256

unfoldable pub second_byte : ℕ → ℕ → ℕ
second_byte n1 n2 = bit_or (n1 * 2 ^ 4) (n2 / 2 ^ 2) % 256

-- After the loop: the last four digits.
unfoldable pub last_group : ℕ → ℕ → ℕ → ℕ → List ℕ
unfolding octets_of first_byte second_byte
last_group n0 n1 n2 n3 =
    if (n0 == 64) || (n1 == 64)
    then []
    else if n2 == 64
    then if not (n3 == 64) then [] else first_byte n0 n1 ∷ []
    else if n3 == 64
    then first_byte n0 n1 ∷ second_byte n1 n2 ∷ []
    else three_bytes (octets_of n0 n1 n2 n3)

-- The test in the loop.
abbrev pub is_bad_group : ℕ → ℕ → ℕ → ℕ → Bool
is_bad_group n0 n1 n2 n3 = (n0 == 65) || (n1 == 65) || (n2 == 65) || (n3 == 65)

-- The loop and what follows it, on a string of whole groups of four.
unfoldable pub decode_groups : List ℕ → List ℕ
unfolding decode_base64_digit last_group octets_of
decode_groups (c0 ∷ c1 ∷ c2 ∷ c3 ∷ c4 ∷ s) =
    let n0 = decode_base64_digit c0 in
    let n1 = decode_base64_digit c1 in
    let n2 = decode_base64_digit c2 in
    let n3 = decode_base64_digit c3 in
    let rest = decode_groups (c4 ∷ s) in
    if is_bad_group n0 n1 n2 n3 then [] else three_bytes (octets_of n0 n1 n2 n3) ++ rest
decode_groups (c0 ∷ c1 ∷ c2 ∷ c3 ∷ []) =
    last_group (decode_base64_digit c0) (decode_base64_digit c1) (decode_base64_digit c2)
      (decode_base64_digit c3)
decode_groups (c0 ∷ c1 ∷ c2 ∷ []) = []
decode_groups (c0 ∷ c1 ∷ []) = []
decode_groups (c0 ∷ []) = []
decode_groups [] = []

unfoldable pub decode_base64_string : List ℕ → List ℕ
unfolding decode_groups
decode_base64_string s = if length s % 4 == 0 then decode_groups s else []

abbrev pub base64code : ℕ → ℕ
base64code v = get_or (text "ABCDEFGHIJKLMNOPQRSTUVWXYZabcdefghijklmnopqrstuvwxyz0123456789+/=") v 0

-- Three bytes as four digits.
unfoldable pub encode_group : ℕ → ℕ → ℕ → List ℕ
encode_group a b c =
    let octets = bit_or (bit_or (a * 2 ^ 16) (b * 2 ^ 8)) c in
    base64code (octets / 2 ^ 18 % 64)
    ∷ base64code (octets / 2 ^ 12 % 64)
    ∷ base64code (octets / 2 ^ 6 % 64)
    ∷ base64code (octets % 64)
    ∷ []

unfoldable pub encode_base64_string : List ℕ → List ℕ
unfolding encode_group
encode_base64_string [] = []
encode_base64_string (a ∷ []) =
    base64code (a / 2 ^ 2 % 64) ∷ base64code (a % 4 * 2 ^ 4) ∷ base64code 64 ∷ base64code 64 ∷ []
encode_base64_string (a ∷ b ∷ []) =
    base64code (a / 2 ^ 2 % 64)
    ∷ base64code (bit_or (a % 4 * 2 ^ 4) (b / 2 ^ 4 % 16))
    ∷ base64code (b % 16 * 2 ^ 2)
    ∷ base64code 64
    ∷ []
encode_base64_string (a ∷ b ∷ c ∷ rest) = encode_group a b c ++ encode_base64_string rest
