-- ===== src/Iscsi/Keys.antt =====
-- The text keys of a login or text request on the wire: `next_key` and `text_key_add` of
-- usr/iscsi/iscsid.c. A request is the list of its `datasize` bytes.
use tgt.Base.{
  ℕ, zero, suc, ◌+◌, Bool, not, ◌&&◌, Option, none, some, List, [], ◌∷◌, ◌++◌, ◌>>=◌, length, ltb,
  ◌==◌, if◌then◌else◌, c_string,
}

abbrev pub put_before : ℕ → Option (List ℕ × List ℕ) → Option (List ℕ × List ℕ)
put_before x none = none
put_before x (some (before, after)) = some (x ∷ before, after)

-- The loop `for (; size > 0 && *p != c; p++, size--)`: what it passes and what follows the byte
-- `c`, or `none` where the bytes end first.
unfoldable pub split_at : ℕ → List ℕ → Option (List ℕ × List ℕ)
split_at c [] = none
split_at c (x ∷ xs) = if x == c then some ([], xs) else put_before x (split_at c xs)

-- The key and the value, and the bytes after them. The key is read as a C string.
unfoldable pub next_key : List ℕ → Option (List ℕ × List ℕ × List ℕ)
unfolding split_at
next_key bytes = do
  (key, tail) ← split_at b'=' bytes
  (value, rest) ← split_at 0 tail
  some (c_string key, value, rest)

-- The loop `while ((key = next_key(&data, &datasize, &value)))` that each scan makes, with fuel.
unfoldable pub scan_keys : ℕ → List ℕ → List (List ℕ × List ℕ)
unfolding next_key
scan_keys zero bytes = []
scan_keys (suc fuel) bytes = elim (next_key bytes) [
  | none ↦ []
  | some (key, value, rest) ↦ (key, value) ∷ scan_keys fuel rest
]

-- What `text_key_add` reads and writes of a connection: the response's data, the buffer's size, and
-- what limits it.
pub record Response : Type 0 where
  pub rsp_data : List ℕ
  pub rsp_buffer_size : ℕ
  pub is_full : Bool
  pub is_text : Bool
  pub max_xmit : ℕ

abbrev pub max_len : Response → ℕ
max_len r = if r.is_full then r.max_xmit else r.rsp_buffer_size

-- "key=value" with the 0 that ends it.
abbrev pub pair_bytes : List ℕ → List ℕ → List ℕ
pair_bytes key value = key ++ (b'=' ∷ (value ++ (0 ∷ [])))

abbrev pub key_len : List ℕ → List ℕ → ℕ
key_len key value = length key + length value + 2

-- `grows` is whether `realloc` returns memory. A key that does not fit is dropped.
unfoldable pub text_key_add : Bool → Response → List ℕ → List ℕ → Response
text_key_add grows r key value =
    let size = length r.rsp_data + key_len key value in
    if ltb (max_len r) size && not r.is_text
    then r
    else if ltb r.rsp_buffer_size size
    then if grows
      then record r { rsp_data = r.rsp_data ++ pair_bytes key value; rsp_buffer_size = size }
      else r
    else record r { rsp_data = r.rsp_data ++ pair_bytes key value }
