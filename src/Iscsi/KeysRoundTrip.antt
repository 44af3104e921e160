-- ===== src/Iscsi/KeysRoundTrip.antt =====
-- What `text_key_add` of usr/iscsi/iscsid.c writes is what `next_key` reads.
use mathlib.Core.List.{append_assoc, append-nil}
use tgt.Base.{
  ℕ, zero, suc, ◌+◌, ◌≤◌, ◌≡◌, ◌≢◌, refl, ◌∙◌, ◌⊎◌, inl, inr, ap, sym, Bool, true, some, List, [],
  ◌∷◌, ◌++◌, arith, length, length-append, All, All-append, c_string, Option-cases,
}
use tgt.Iscsi.Keys.{
  split_at, next_key, scan_keys, Response, max_len, pair_bytes, key_len, text_key_add,
}

-- A key without `=` and a value, neither with a 0.
abbrev pub IsPair : List ℕ × List ℕ → Type 0
IsPair (key, value) = All (λ c. (c ≢ b'=') × (c ≢ 0)) key × All (λ c. c ≢ 0) value

-- The bytes of a list of pairs.
abbrev pub wire : List (List ℕ × List ℕ) → List ℕ
wire [] = []
wire ((key, value) ∷ kvs) = pair_bytes key value ++ wire kvs

-- What a scan of all the bytes finds.
abbrev pub keys_of : List ℕ → List (List ℕ × List ℕ)
keys_of bytes = scan_keys (length bytes) bytes

split_at-append :
    (c : ℕ) (xs rest : List ℕ)
    → All (λ x. x ≢ c) xs
    → split_at c (xs ++ (c ∷ rest)) ≡ some (xs, rest)
unfolding split_at
split_at-append c [] rest h = ground arith
split_at-append c (x ∷ xs) rest h = rw (split_at-append c xs rest h.1) (ground arith)

c_string_plain : (xs : List ℕ) → All (λ c. (c ≢ b'=') × (c ≢ 0)) xs → c_string xs ≡ xs
c_string_plain [] h = refl
c_string_plain (x ∷ xs) h = ground (arith, c_string_plain xs h.1)

no_equals : (xs : List ℕ) → All (λ c. (c ≢ b'=') × (c ≢ 0)) xs → All (λ c. c ≢ b'=') xs
no_equals [] h = tt
no_equals (x ∷ xs) h = (h.0.0, no_equals xs h.1)

pair_bytes-append :
    (key value rest : List ℕ) → pair_bytes key value ++ rest ≡ key ++ (b'=' ∷ (value ++ (0 ∷ rest)))
pair_bytes-append key value rest = simp (append_assoc)

next_key-pair_bytes :
    (key value rest : List ℕ)
    → IsPair (key, value)
    → next_key (pair_bytes key value ++ rest) ≡ some (key, value, rest)
unfolding next_key
next_key-pair_bytes key value rest h = rw (pair_bytes-append key value rest) (
    rw (split_at-append b'=' key (value ++ (0 ∷ rest)) (no_equals key h.0))
      (rw (split_at-append 0 value rest h.1) (rw (c_string_plain key h.0) refl)))

scan_keys-nil : (fuel : ℕ) → scan_keys fuel [] ≡ []
unfolding scan_keys next_key split_at
scan_keys-nil zero = refl
scan_keys-nil (suc fuel) = refl

scan_keys-wire :
    (kvs : List (List ℕ × List ℕ)) (fuel : ℕ)
    → length kvs ≤ fuel
    → All IsPair kvs
    → scan_keys fuel (wire kvs) ≡ kvs
unfolding scan_keys
scan_keys-wire [] fuel le h = scan_keys-nil fuel
scan_keys-wire (kv ∷ kvs) zero le h = absurd (omega arith)
scan_keys-wire ((key, value) ∷ kvs) (suc fuel) le h =
    rw (next_key-pair_bytes key value (wire kvs) h.0, scan_keys)
      (ap (λ t. (key, value) ∷ t) (scan_keys-wire kvs fuel (omega arith) h.1))

-- What follows the pair that is read is shorter, so that each round of a scan has less to read.
split_at-shorter :
    (c : ℕ) (xs before after : List ℕ)
    → split_at c xs ≡ some (before, after)
    → length after + 1 ≤ length xs
unfolding split_at
split_at-shorter c [] before after h = absurd (cc)
split_at-shorter c (x ∷ xs) before after h = elim (Option-cases (split_at c xs)) [
  | inl e ↦ ground (arith, e)
  | inr ((b, a), e) ↦ ground (arith, e, split_at-shorter c xs b a e)
]

next_key-shorter :
    (bytes key value rest : List ℕ)
    → next_key bytes ≡ some (key, value, rest)
    → length rest + 2 ≤ length bytes
unfolding next_key
next_key-shorter bytes key value rest h = elim (Option-cases (split_at b'=' bytes)) [
  | inl e ↦ absurd (cc)
  | inr ((k, tail), e) ↦ elim (Option-cases (split_at 0 tail)) [
    | inl f ↦ absurd (cc)
    | inr ((v, r), f) ↦
        ground (arith, split_at-shorter b'=' bytes k tail e, split_at-shorter 0 tail v r f)
  ]
]

scan_keys-fuel :
    (f g : ℕ) (bytes : List ℕ)
    → length bytes ≤ f
    → length bytes ≤ g
    → scan_keys f bytes ≡ scan_keys g bytes
unfolding scan_keys
scan_keys-fuel zero zero bytes lf lg = refl
scan_keys-fuel zero (suc g) [] lf lg = sym (scan_keys-nil (suc g))
scan_keys-fuel zero (suc g) (x ∷ xs) lf lg = absurd (omega arith)
scan_keys-fuel (suc f) zero [] lf lg = scan_keys-nil (suc f)
scan_keys-fuel (suc f) zero (x ∷ xs) lf lg = absurd (omega arith)
scan_keys-fuel (suc f) (suc g) bytes lf lg = elim (Option-cases (next_key bytes)) [
  | inl e ↦ rw (e, scan_keys) refl
  | inr ((key, value, rest), e) ↦
      let less = next_key-shorter bytes key value rest e in
      rw (e, scan_keys)
        (ap (λ t. (key, value) ∷ t) (scan_keys-fuel f g rest (omega arith) (omega arith)))
]

-- A scan ends by itself: with as much fuel as there are bytes, more fuel finds nothing more.
pub scan_keys_enough :
    (fuel : ℕ) (bytes : List ℕ) → length bytes ≤ fuel → scan_keys fuel bytes ≡ keys_of bytes
scan_keys_enough fuel bytes le = scan_keys-fuel fuel (length bytes) bytes le (omega arith)

wire-append : (xs ys : List (List ℕ × List ℕ)) → wire (xs ++ ys) ≡ wire xs ++ wire ys
wire-append [] ys = refl
wire-append ((key, value) ∷ xs) ys = rw (wire-append xs ys) (simp (append_assoc))

length-wire : (kvs : List (List ℕ × List ℕ)) → length kvs ≤ length (wire kvs)
length-wire [] = omega arith
length-wire ((key, value) ∷ kvs) = omega (
  arith,
  length-wire kvs,
  length-append (pair_bytes key value) (wire kvs),
  length-append key (b'=' ∷ (value ++ (0 ∷ []))),
)

length-pair_bytes : (key value : List ℕ) → length (pair_bytes key value) ≡ key_len key value
length-pair_bytes key value =
    omega (arith, length-append key (b'=' ∷ (value ++ (0 ∷ []))), length-append value (0 ∷ []))

rsp_data-text_key_add :
    (grows : Bool) (r : Response) (key value : List ℕ)
    → (length r.rsp_data + key_len key value ≤ max_len r) ⊎ (r.is_text ≡ true)
    → (length r.rsp_data + key_len key value ≤ r.rsp_buffer_size) ⊎ (grows ≡ true)
    → (text_key_add grows r key value).rsp_data ≡ r.rsp_data ++ pair_bytes key value
unfolding text_key_add
rsp_data-text_key_add grows r key value (inl a) (inl b) = ground arith
rsp_data-text_key_add grows r key value (inl a) (inr b) = ground arith
rsp_data-text_key_add grows r key value (inr a) (inl b) = ground arith
rsp_data-text_key_add grows r key value (inr a) (inr b) = ground arith

rsp_data-fits :
    (grows : Bool) (r : Response) (key value : List ℕ)
    → length r.rsp_data ≤ r.rsp_buffer_size
    → length (text_key_add grows r key value).rsp_data
      ≤ (text_key_add grows r key value).rsp_buffer_size
unfolding text_key_add
rsp_data-fits grows r key value h =
    ground (arith, length-append r.rsp_data (pair_bytes key value), length-pair_bytes key value)

-- A key that fits is appended: where the data so far are the bytes of `kvs`, a scan of the data
-- afterwards finds `kvs` and then the key with its value, and the buffer still holds the data.
pub keys_of-text_key_add :
    (grows : Bool) (r : Response) (kvs : List (List ℕ × List ℕ)) (key value : List ℕ)
    → r.rsp_data ≡ wire kvs
    → length r.rsp_data ≤ r.rsp_buffer_size
    → All IsPair kvs
    → IsPair (key, value)
    → (length r.rsp_data + key_len key value ≤ max_len r) ⊎ (r.is_text ≡ true)
    → (length r.rsp_data + key_len key value ≤ r.rsp_buffer_size) ⊎ (grows ≡ true)
    → (keys_of (text_key_add grows r key value).rsp_data ≡ kvs ++ ((key, value) ∷ []))
      × (length (text_key_add grows r key value).rsp_data
          ≤ (text_key_add grows r key value).rsp_buffer_size)
keys_of-text_key_add grows r kvs key value coded small good pair fits room =
    (rw appended read, holds)
  where
    appended : (text_key_add grows r key value).rsp_data ≡ r.rsp_data ++ pair_bytes key value
    appended = rsp_data-text_key_add grows r key value fits room

    holds :
        length (text_key_add grows r key value).rsp_data
        ≤ (text_key_add grows r key value).rsp_buffer_size
    holds = rsp_data-fits grows r key value small

    all : wire (kvs ++ ((key, value) ∷ [])) ≡ r.rsp_data ++ pair_bytes key value
    all = wire-append kvs ((key, value) ∷ []) ∙ rw (← coded) (rw (append-nil) refl)

    read : keys_of (r.rsp_data ++ pair_bytes key value) ≡ kvs ++ ((key, value) ∷ [])
    read = rw (← all) (
        scan_keys-wire (kvs ++ ((key, value) ∷ [])) _ (length-wire (kvs ++ ((key, value) ∷ [])))
          (All-append IsPair kvs ((key, value) ∷ []) good (pair, tt)))
