-- ===== src/Iscsi/Fits.antt =====
-- The values that a login settles on, and the ranges of the table in usr/iscsi/param.c.
use Prim.Native.Nat.{bit_and, bit_or}
use tgt.Base.{
  ℕ, zero, suc, ◌+◌, ◌≡◌, refl, inl, inr, Bool, true, false, not, ◌&&◌, ◌||◌, some, List, [], ◌∷◌,
  arith, length, get_or, set, ltb, ◌==◌, Option-cases,
}
use tgt.Iscsi.Param.{
  Param, KeyOps, minimum_ops, min_or_zero_ops, maximum_ops, or_ops, and_ops, digest_ops, marker_ops,
  IscsiKey, no_key, val_at, outside, settle, check_as, param_str_to_val, bool_str_to_val,
  digest_str_to_val, digest_word, digest_words, after_comma, digest_none,
}

-- Whether a value is one that a key can have: in its range, or 0 where 0 stands for no limit; a
-- Boolean; a set of digests that is not empty. The marker keys have no value of their own.
abbrev pub fits_as : KeyOps → IscsiKey → ℕ → Bool
fits_as minimum_ops key v = not (outside key v)
fits_as min_or_zero_ops key v = (v == 0) || not (outside key v)
fits_as maximum_ops key v = not (outside key v)
fits_as or_ops key v = ltb v 2
fits_as and_ops key v = ltb v 2
fits_as digest_ops key v = (v == 1) || (v == 2) || (v == 3)
fits_as marker_ops key v = true

abbrev pub fits : IscsiKey → ℕ → Bool
fits key v = fits_as key.ops key v

-- Every key of a table has a parameter that fits it.
abbrev pub all_fit : List IscsiKey → List Param → Bool
all_fit [] ps = true
all_fit (k ∷ ks) [] = false
all_fit (k ∷ ks) (p ∷ ps) = fits k p.val && all_fit ks ps

pub all_fit-val :
    (ks : List IscsiKey) (ps : List Param) (idx : ℕ)
    → all_fit ks ps ≡ true
    → fits (get_or ks idx no_key) (val_at ps idx) ≡ true
all_fit-val [] ps idx h = refl
all_fit-val (k ∷ ks) [] idx h = absurd (cc)
all_fit-val (k ∷ ks) (p ∷ ps) zero h = ground arith
all_fit-val (k ∷ ks) (p ∷ ps) (suc idx) h = all_fit-val ks ps idx (ground arith)

pub all_fit-set :
    (ks : List IscsiKey) (ps : List Param) (idx : ℕ) (p : Param)
    → fits (get_or ks idx no_key) p.val ≡ true
    → all_fit ks ps ≡ true
    → all_fit ks (set ps idx p) ≡ true
all_fit-set [] ps idx p e h = refl
all_fit-set (k ∷ ks) [] idx p e h = absurd (cc)
all_fit-set (k ∷ ks) (q ∷ ps) zero p e h = ground arith
all_fit-set (k ∷ ks) (q ∷ ps) (suc idx) p e h = ground (arith, all_fit-set ks ps idx p)

-- Negotiation of one key.

or_bit : (a b : ℕ) → ltb a 2 ≡ true → ltb b 2 ≡ true → ltb (bit_or a b) 2 ≡ true
or_bit zero zero h g = refl
or_bit zero (suc zero) h g = refl
or_bit (suc zero) zero h g = refl
or_bit (suc zero) (suc zero) h g = refl
or_bit (suc (suc a)) b h g = absurd (ground arith)
or_bit a (suc (suc b)) h g = absurd (ground arith)

and_bit : (a b : ℕ) → ltb a 2 ≡ true → ltb b 2 ≡ true → ltb (bit_and a b) 2 ≡ true
and_bit zero zero h g = refl
and_bit zero (suc zero) h g = refl
and_bit (suc zero) zero h g = refl
and_bit (suc zero) (suc zero) h g = refl
and_bit (suc (suc a)) b h g = absurd (ground arith)
and_bit a (suc (suc b)) h g = absurd (ground arith)

pub settle-fits :
    (ops : KeyOps) (key : IscsiKey) (settled : Bool) (mine v : ℕ)
    → fits_as ops key mine ≡ true
    → fits_as ops key v ≡ true
    → fits_as ops key (settle ops settled mine v) ≡ true
unfolding settle
settle-fits minimum_ops key settled mine v hm hv = ground arith
settle-fits min_or_zero_ops key settled mine v hm hv = ground arith
settle-fits maximum_ops key settled mine v hm hv = ground arith
settle-fits or_ops key settled mine v hm hv = or_bit v mine hv hm
settle-fits and_ops key settled mine v hm hv = and_bit v mine hv hm
settle-fits digest_ops key settled mine v hm hv = ground arith
settle-fits marker_ops key settled mine v hm hv = refl

digest_word-fits :
    (key : IscsiKey) (p : List ℕ) (v w : ℕ)
    → fits_as digest_ops key v ≡ true
    → digest_word p v ≡ some w
    → fits_as digest_ops key w ≡ true
unfolding digest_word
digest_word-fits key p zero w h e = absurd (cc)
digest_word-fits key p (suc zero) w h e = ground arith
digest_word-fits key p (suc (suc zero)) w h e = ground arith
digest_word-fits key p (suc (suc (suc zero))) w h e = ground arith
digest_word-fits key p (suc (suc (suc (suc v)))) w h e = absurd (ground arith)

digest_words-fits :
    (key : IscsiKey) (fuel : ℕ) (p : List ℕ) (v w : ℕ)
    → fits_as digest_ops key v ≡ true
    → digest_words fuel p v ≡ some w
    → fits_as digest_ops key w ≡ true
unfolding digest_words
digest_words-fits key zero p v w h e = absurd (cc)
digest_words-fits key (suc fuel) p v w h e = elim (Option-cases (digest_word p v)) [
  | inl f ↦ ground (arith, f)
  | inr (u, f) ↦
      let fit = digest_word-fits key p v u h f in
      elim (Option-cases (after_comma p)) [
        | inl g ↦ ground (arith, f, g, fit)
        | inr (q, g) ↦ digest_words-fits key fuel q u w fit (ground (arith, f, g))
      ]
]

-- A value that is read and passes its check fits the key.
pub check_as-fits :
    (strtol : List ℕ → ℕ) (ops : KeyOps) (key : IscsiKey) (str : List ℕ) (v : ℕ)
    → param_str_to_val strtol ops str ≡ some v
    → (check_as ops key v).1 ≡ false
    → fits_as ops key (check_as ops key v).0 ≡ true
unfolding param_str_to_val check_as bool_str_to_val digest_str_to_val
check_as-fits strtol minimum_ops key str v e ok = ground arith
check_as-fits strtol min_or_zero_ops key str v e ok = ground arith
check_as-fits strtol maximum_ops key str v e ok = ground arith
check_as-fits strtol or_ops key str v e ok = ground arith
check_as-fits strtol and_ops key str v e ok = ground arith
check_as-fits strtol digest_ops key str v e ok =
    digest_words-fits key (length str + 1) str digest_none v refl e
check_as-fits strtol marker_ops key str v e ok = refl
