-- ===== src/Base/Copy.antt =====
-- Bytes that are written to a buffer one after the other, and numbers as their big-endian bytes.
use Prim.Native.Nat.{ℕ, suc, zero, ◌+◌, ◌*◌, ◌/◌, ◌%◌, ◌^◌, ◌<◌, ◌≤◌}
use mathlib.Core.Path.{◌≡◌, refl, ◌∙◌}
use mathlib.Core.Bool.{true, false}
use mathlib.Core.List.{List, [], ◌∷◌, ◌++◌}
use native.Mathlib.Omega.{arith}
use tgt.Base.Tests.{◌==◌}
use tgt.Base.Lists.{length, get_or}
use tgt.Base.Memory.{Buffer, store, get_unaligned_be32, get_unaligned_be64}

-- `memcpy` to offset `i`.
unfoldable pub store_bytes : Buffer → ℕ → List ℕ → Buffer
store_bytes p i [] = p
store_bytes p i (b ∷ bs) = store_bytes (store p i b) (i + 1) bs

abbrev pub be32_bytes : ℕ → List ℕ
be32_bytes v = v / 2 ^ 24 % 2 ^ 8 ∷ v / 2 ^ 16 % 2 ^ 8 ∷ v / 2 ^ 8 % 2 ^ 8 ∷ v % 2 ^ 8 ∷ []

abbrev pub be64_bytes : ℕ → List ℕ
be64_bytes v = be32_bytes (v / 2 ^ 32) ++ be32_bytes v

pub store_bytes-before :
    (p : Buffer) (i : ℕ) (bs : List ℕ) (j : ℕ) → j < i → store_bytes p i bs j ≡ p j
unfolding store_bytes
store_bytes-before p i [] j h = refl
store_bytes-before p i (b ∷ bs) j h =
    let other : (i == j) ≡ false = ground (arith, h) in
    let later : j < i + 1 = omega (arith, h) in
    store_bytes-before (store p i b) (i + 1) bs j later ∙ rw other refl

pub store_bytes-after :
    (p : Buffer) (i : ℕ) (bs : List ℕ) (j : ℕ) → i + length bs ≤ j → store_bytes p i bs j ≡ p j
unfolding store_bytes
store_bytes-after p i [] j h = refl
store_bytes-after p i (b ∷ bs) j h =
    let other : (i == j) ≡ false = ground (arith, h) in
    let later : i + 1 + length bs ≤ j = omega (arith, h) in
    store_bytes-after (store p i b) (i + 1) bs j later ∙ rw other refl

pub store_bytes-within :
    (p : Buffer) (i : ℕ) (bs : List ℕ) (k j : ℕ)
    → j ≡ i + k
    → k < length bs
    → store_bytes p i bs j ≡ get_or bs k 0 % 2 ^ 8
unfolding store_bytes
store_bytes-within p i [] k j e h = absurd (omega (arith, h))
store_bytes-within p i (b ∷ bs) zero j e h =
    let same : (i == j) ≡ true = ground (arith, e) in
    let later : j < i + 1 = omega (arith, e) in
    store_bytes-before (store p i b) (i + 1) bs j later ∙ rw same refl
store_bytes-within p i (b ∷ bs) (suc k) j e h =
    let next : j ≡ i + 1 + k = omega (arith, e) in
    let inside : k < length bs = omega (arith, h) in
    store_bytes-within (store p i b) (i + 1) bs k j next inside

-- What is read depends on the bytes of the field alone.
pub get_unaligned_be32-agree :
    (p q : Buffer) (i : ℕ)
    → ((j : ℕ) → i ≤ j → j < i + 4 → p j ≡ q j)
    → get_unaligned_be32 p i ≡ get_unaligned_be32 q i
unfolding get_unaligned_be32
get_unaligned_be32-agree p q i h =
    rw
      (
        h i (omega arith) (omega arith),
        h (i + 1) (omega arith) (omega arith),
        h (i + 2) (omega arith) (omega arith),
        h (i + 3) (omega arith) (omega arith),
      )
      refl

pub get_unaligned_be64-agree :
    (p q : Buffer) (i : ℕ)
    → ((j : ℕ) → i ≤ j → j < i + 8 → p j ≡ q j)
    → get_unaligned_be64 p i ≡ get_unaligned_be64 q i
unfolding get_unaligned_be64
get_unaligned_be64-agree p q i h =
    rw
      (
        get_unaligned_be32-agree p q i (λ j a b. h j a (omega (arith, b))),
        get_unaligned_be32-agree p q (i + 4) (λ j a b. h j (omega (arith, a)) (omega (arith, b))),
      )
      refl

be32_bytes-sum :
    (v : ℕ)
    → v / 2 ^ 24 % 2 ^ 8 * 2 ^ 24
        + v / 2 ^ 16 % 2 ^ 8 * 2 ^ 16
        + v / 2 ^ 8 % 2 ^ 8 * 2 ^ 8
        + v % 2 ^ 8
      ≡ v % 2 ^ 32
be32_bytes-sum v = omega arith

-- Four bytes that stand in a buffer.
pub get_unaligned_be32-bytes :
    (p : Buffer) (i v : ℕ)
    → p i ≡ v / 2 ^ 24 % 2 ^ 8
    → p (i + 1) ≡ v / 2 ^ 16 % 2 ^ 8
    → p (i + 2) ≡ v / 2 ^ 8 % 2 ^ 8
    → p (i + 3) ≡ v % 2 ^ 8
    → get_unaligned_be32 p i ≡ v % 2 ^ 32
unfolding get_unaligned_be32
get_unaligned_be32-bytes p i v a b c d = rw (a, b, c, d) (omega (arith, be32_bytes-sum v))

pub get_unaligned_be64-store_bytes :
    (p : Buffer) (i v : ℕ) → v < 2 ^ 64 → get_unaligned_be64 (store_bytes p i (be64_bytes v)) i ≡ v
unfolding get_unaligned_be64
get_unaligned_be64-store_bytes p i v h =
    let at =
      λ (k j : ℕ) (e : j ≡ i + k) (l : k < 8). store_bytes-within p i (be64_bytes v) k j e l in
    let q : Buffer = store_bytes p i (be64_bytes v) in
    let high : get_unaligned_be32 q i ≡ v / 2 ^ 32 % 2 ^ 32 =
      get_unaligned_be32-bytes q i (v / 2 ^ 32) (omega (arith, at 0 i))
        (omega (arith, at 1 (i + 1))) (omega (arith, at 2 (i + 2))) (omega (arith, at 3 (i + 3))) in
    let low : get_unaligned_be32 q (i + 4) ≡ v % 2 ^ 32 =
      get_unaligned_be32-bytes q (i + 4) v (omega (arith, at 4 (i + 4)))
        (omega (arith, at 5 (i + 4 + 1))) (omega (arith, at 6 (i + 4 + 2)))
        (omega (arith, at 7 (i + 4 + 3))) in
    rw (high, low) (omega (arith, h))
