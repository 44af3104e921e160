-- ===== src/Base/Memory.antt =====
-- C memory: a buffer of bytes, its big-endian fields (usr/be_byteshift.h) and fixed-width words.
use Prim.Native.Nat.{ℕ, ◌+◌, ◌*◌, ◌/◌, ◌%◌, ◌^◌}
use mathlib.Core.Bool.{Bool}
use tgt.Base.Tests.{◌==◌, if◌then◌else◌}

-- The bytes from a pointer on. What is read and what is written is reduced to a byte.
abbrev pub Buffer : Type 0
Buffer = ℕ → ℕ

abbrev pub byte : Buffer → ℕ → ℕ
byte p i = p i % 2 ^ 8

abbrev pub store : Buffer → ℕ → ℕ → Buffer
store p i v j = if i == j then v % 2 ^ 8 else p j

abbrev pub zeroed : Buffer
zeroed i = 0

-- The bytes from offset `k` on.
abbrev pub advance : Buffer → ℕ → Buffer
advance p k i = p (k + i)

abbrev pub u32 : ℕ → ℕ
u32 x = x % 2 ^ 32

abbrev pub u64 : ℕ → ℕ
u64 x = x % 2 ^ 64

-- Whether bit `k` of `x` is set, for a test `x & (1 << k)`.
abbrev pub bit : ℕ → ℕ → Bool
bit x k = (x / 2 ^ k % 2) == 1

unfoldable pub get_unaligned_be16 : Buffer → ℕ → ℕ
get_unaligned_be16 p i = byte p i * 2 ^ 8 + byte p (i + 1)

unfoldable pub get_unaligned_be32 : Buffer → ℕ → ℕ
get_unaligned_be32 p i =
    byte p i * 2 ^ 24 + byte p (i + 1) * 2 ^ 16 + byte p (i + 2) * 2 ^ 8 + byte p (i + 3)

unfoldable pub get_unaligned_be64 : Buffer → ℕ → ℕ
get_unaligned_be64 p i = get_unaligned_be32 p i * 2 ^ 32 + get_unaligned_be32 p (i + 4)

unfoldable pub put_unaligned_be16 : ℕ → Buffer → ℕ → Buffer
put_unaligned_be16 v p i = store (store p i (v / 2 ^ 8)) (i + 1) v

unfoldable pub put_unaligned_be32 : ℕ → Buffer → ℕ → Buffer
put_unaligned_be32 v p i = put_unaligned_be16 v (put_unaligned_be16 (v / 2 ^ 16) p i) (i + 2)

unfoldable pub put_unaligned_be64 : ℕ → Buffer → ℕ → Buffer
put_unaligned_be64 v p i = put_unaligned_be32 v (put_unaligned_be32 (v / 2 ^ 32) p i) (i + 4)
