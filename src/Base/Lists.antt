-- ===== src/Base/Lists.antt =====
-- Lists measured by native numbers, and predicates on all their elements.
use Prim.Native.Nat.{ℕ, zero, suc, ◌+◌, ◌<◌}
use mathlib.Core.Path.{◌≡◌, refl}
use mathlib.Core.Logic.{◌≢◌}
use mathlib.Core.List.{List, [], ◌∷◌, ◌++◌}
use mathlib.Core.Option.{Option, none, some}
use native.Mathlib.Omega.{arith}

module _ {ℓ} {A : Type ℓ} where
  abbrev pub length : List A → ℕ
  length [] = 0
  length (x ∷ xs) = suc (length xs)

  abbrev pub get_elem? : List A → ℕ → Option A
  get_elem? [] i = none
  get_elem? (x ∷ xs) zero = some x
  get_elem? (x ∷ xs) (suc i) = get_elem? xs i

  abbrev pub get_or : List A → ℕ → A → A
  get_or [] i d = d
  get_or (x ∷ xs) zero d = x
  get_or (x ∷ xs) (suc i) d = get_or xs i d

  -- A write out of bounds changes nothing.
  abbrev pub set : List A → ℕ → A → List A
  set [] i v = []
  set (x ∷ xs) zero v = v ∷ xs
  set (x ∷ xs) (suc i) v = x ∷ set xs i v

  abbrev pub take : ℕ → List A → List A
  take zero xs = []
  take (suc n) [] = []
  take (suc n) (x ∷ xs) = x ∷ take n xs

  abbrev pub replicate : ℕ → A → List A
  replicate zero x = []
  replicate (suc n) x = x ∷ replicate n x

  pub length-append : (xs ys : List A) → length (xs ++ ys) ≡ length xs + length ys
  length-append [] ys = omega arith
  length-append (x ∷ xs) ys = omega (arith, length-append xs ys)

  pub get_or-set_ne :
      (ss : List A) (i j : ℕ) (s d : A) → i ≢ j → get_or (set ss j s) i d ≡ get_or ss i d
  get_or-set_ne [] i j s d h = refl
  get_or-set_ne (x ∷ ss) zero zero s d h = absurd (h refl)
  get_or-set_ne (x ∷ ss) zero (suc j) s d h = refl
  get_or-set_ne (x ∷ ss) (suc i) zero s d h = refl
  get_or-set_ne (x ∷ ss) (suc i) (suc j) s d h =
      get_or-set_ne ss i j s d (λ e. h (omega (arith, e)))

  pub length-set : (ss : List A) (j : ℕ) (s : A) → length (set ss j s) ≡ length ss
  length-set [] j s = refl
  length-set (x ∷ ss) zero s = refl
  length-set (x ∷ ss) (suc j) s = omega (arith, length-set ss j s)

  pub get_or-set_eq : (ss : List A) (j : ℕ) (s d : A) → j < length ss → get_or (set ss j s) j d ≡ s
  get_or-set_eq [] j s d h = absurd (omega (arith, h))
  get_or-set_eq (x ∷ ss) zero s d h = refl
  get_or-set_eq (x ∷ ss) (suc j) s d h = get_or-set_eq ss j s d (omega (arith, h))

  abbrev pub All {κ} : (A → Type κ) → List A → Type κ
  All P [] = Unit
  All P (x ∷ xs) = P x × All P xs

  pub All-append {κ} : (P : A → Type κ) (xs ys : List A) → All P xs → All P ys → All P (xs ++ ys)
  All-append P [] ys hx hy = hy
  All-append P (x ∷ xs) ys hx hy = (hx.0, All-append P xs ys hx.1 hy)

  pub All-imp {κ μ} :
      (P : A → Type κ) (Q : A → Type μ) (xs : List A) → ((x : A) → P x → Q x) → All P xs → All Q xs
  All-imp P Q [] f h = tt
  All-imp P Q (x ∷ xs) f h = (f x h.0, All-imp P Q xs f h.1)
