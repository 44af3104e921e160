-- ===== src/Iscsi/Chap.antt =====
-- How the CHAP code of usr/iscsi/chap.c decodes what an initiator sends: the format of a string,
-- the size of the buffer for a challenge, and `chap_decode_string`.
use Prim.Native.Nat.{bit_or}
use mathlib.Core.List.{reverse}
use tgt.Base.{
  ℕ, zero, suc, ◌+◌, ◌-◌, ◌*◌, ◌/◌, ◌%◌, ◌^◌, not, ◌&&◌, ◌||◌, Option, none, some, List, [], ◌∷◌,
  ◌++◌, get_or, length, leb, ltb, ◌==◌, if◌then◌else◌,
}
use tgt.Iscsi.Base64.{decode_base64_string}

pub data Encoding : Type 0 where
  hex_format base64_format : Encoding

-- `none` is -1.
unfoldable pub chap_check_encoding_format : List ℕ → Option Encoding
chap_check_encoding_format s =
    if ltb (length s) 3 || not (get_or s 0 0 == b'0')
    then none
    else if (get_or s 1 0 == b'x') || (get_or s 1 0 == b'X')
    then some hex_format
    else if (get_or s 1 0 == b'b') || (get_or s 1 0 == b'B')
    then some base64_format
    else none

-- 1 where the character at `i` is '='.
abbrev pub is_pad : List ℕ → ℕ → ℕ
is_pad s i = if get_or s i 0 == b'=' then 1 else 0

abbrev pub some_length : ℕ → Option ℕ
some_length n = if n == 0 then none else some n

-- The size of the buffer that `chap_alloc_decode_buffer` allocates; `none` is
-- CHAP_INITIATOR_ERROR.
unfoldable pub decode_len : Encoding → List ℕ → Option ℕ
decode_len hex_format s = some_length ((length s - 2 - 1) / 2 + 1)
decode_len base64_format s =
    let i = length s - 2 in
    if not (i % 4 == 0) then none else some_length (i / 4 * 3 - is_pad s (i + 1) - is_pad s i)

unfoldable pub decode_hex_digit : ℕ → ℕ
decode_hex_digit c =
    if leb b'0' c && leb c b'9'
    then c - b'0'
    else if leb b'a' c && leb c b'f'
    then c - b'a' + 10
    else if leb b'A' c && leb c b'F'
    then c - b'A' + 10
    else 0

-- The loop of `decode_hex_string`, from the end of the string to its start: the bytes from the last
-- one on. The digit before a string of odd length is the character `x` before it.
unfoldable pub hex_bytes : ℕ → List ℕ → List ℕ
unfolding decode_hex_digit
hex_bytes x [] = []
hex_bytes x (lo ∷ []) = bit_or (decode_hex_digit lo) (decode_hex_digit x * 2 ^ 4) ∷ []
hex_bytes x (lo ∷ hi ∷ s) =
    bit_or (decode_hex_digit lo) (decode_hex_digit hi * 2 ^ 4) ∷ hex_bytes x s

abbrev pub zeros : ℕ → List ℕ
zeros zero = []
zeros (suc n) = 0 ∷ zeros n

-- What is written to the buffer, of `intlen` bytes, from its end on.
unfoldable pub decode_hex_string : ℕ → List ℕ → ℕ → List ℕ
unfolding hex_bytes
decode_hex_string x s intlen =
    let bytes = hex_bytes x (reverse s) in bytes ++ zeros (intlen - length bytes)

abbrev pub drop_two : List ℕ → List ℕ
drop_two [] = []
drop_two (c ∷ []) = []
drop_two (c ∷ d ∷ s) = s

-- What is written to a buffer of `buf_len` bytes; `none` is CHAP_TARGET_ERROR.
unfoldable pub chap_decode_string : List ℕ → ℕ → Encoding → Option (List ℕ)
unfolding decode_hex_string
chap_decode_string s buf_len hex_format =
    if ltb (2 * buf_len) (length s - 2)
    then none
    else some (decode_hex_string (get_or s 1 0) (drop_two s) buf_len)
chap_decode_string s buf_len base64_format =
    if ltb (((buf_len - 1) / 3 + 1) * 4) (length s - 2)
    then none
    else some (decode_base64_string (drop_two s))
