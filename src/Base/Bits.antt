-- ===== src/Base/Bits.antt =====
-- `|` of bits that do not overlap.
use Prim.Native.Nat.{
  ℕ, zero, suc, ◌+◌, ◌*◌, ◌/◌, ◌^◌, ◌≤◌, ◌<◌, max, digits, bit_or, bit_or-bitwise,
}
use mathlib.Core.Bool.{Bool, true, ◌&&◌}
use mathlib.Core.Logic.{inl, inr}
use mathlib.Core.Path.{◌≡◌, refl, ap, ◌∙◌}
use native.Mathlib.Nat.{pow-suc, le_refl}
use tgt.Base.Tests.{◌==◌, ==_iff, Bool-cases}
use native.Mathlib.Omega.{arith}

doubled : (q k : ℕ) → q * 2 ^ suc k ≡ 2 * (q * 2 ^ k)
doubled q k = omega (arith, ap (λ (p : ℕ). q * p) (pow-suc 2 k))

-- The digits of a multiple of 2 ^ k and those of a number below 2 ^ k.
digits_or : (k n q r a : ℕ) → a ≡ q * 2 ^ k → r < 2 ^ k → a ≤ n → digits (λ d. d) max n a r ≡ a + r
digits_or zero zero q r a e lt le = omega (arith, e, lt, le)
digits_or zero (suc n) q r zero e lt le = omega arith
digits_or zero (suc n) q r (suc a) e lt le = omega (
  arith,
  lt,
  digits_or zero n (suc a / 2) (r / 2) (suc a / 2) (omega arith) (omega (arith, lt))
      (omega (arith, le)),
)
digits_or (suc k) zero q r zero e lt le = omega arith
digits_or (suc k) zero q r (suc a) e lt le = absurd (omega (arith, le))
digits_or (suc k) (suc n) q r zero e lt le = omega arith
digits_or (suc k) (suc n) q r (suc a) e lt le = omega (
  arith,
  doubled q k,
  e,
  lt,
  digits_or k n q (r / 2) (suc a / 2) (omega (arith, doubled q k, e))
      (omega (arith, lt, pow-suc 2 k)) (omega (arith, le)),
)

-- `(q << k) | r`, where `r` fits `k` bits.
pub shifted_or : (k q r : ℕ) → r < 2 ^ k → bit_or (q * 2 ^ k) r ≡ q * 2 ^ k + r
shifted_or k q r lt =
    bit_or-bitwise (q * 2 ^ k) r ∙ digits_or k (q * 2 ^ k) q r (q * 2 ^ k) refl lt (le_refl _)

-- Whether a test holds for every number below `n`.
abbrev pub holds_below : (ℕ → Bool) → ℕ → Bool
holds_below test zero = true
holds_below test (suc n) = holds_below test n && test n

pub holds_below_lem :
    (test : ℕ → Bool) (n x : ℕ) → holds_below test n ≡ true → x < n → test x ≡ true
holds_below_lem test zero x h lt = absurd (omega (arith, lt))
holds_below_lem test (suc n) x h lt = elim (Bool-cases (x == n)) [
  | inl same ↦ ground (arith, h, (==_iff x n).0 same)
  | inr other ↦ holds_below_lem test n x (ground (arith, h)) (ground (arith, other, lt))
]
