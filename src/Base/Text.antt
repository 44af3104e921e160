-- ===== src/Base/Text.antt =====
-- C strings as the lists of their bytes, without the 0 that ends them.
use Prim.Native.Char.{code}
use Prim.Native.String.{String}
use Prim.Native.Nat.{ℕ, ◌+◌}
use mathlib.Core.Bool.{Bool, true, false, ◌&&◌}
use mathlib.Core.List.{List, [], ◌∷◌}
use tgt.Base.Tests.{◌==◌, leb, if◌then◌else◌}

-- The bytes of a literal.
abbrev pub text : String → List ℕ
text String.[] = []
text (String.◌∷◌ c s) = code c ∷ text s

-- !strcmp(s, t)
abbrev pub same_text : List ℕ → List ℕ → Bool
same_text [] [] = true
same_text [] (d ∷ t) = false
same_text (c ∷ s) [] = false
same_text (c ∷ s) (d ∷ t) = (c == d) && same_text s t

abbrev pub to_lower : ℕ → ℕ
to_lower c = if leb 65 c && leb c 90 then c + 32 else c

-- !strcasecmp(s, t)
abbrev pub same_letters : List ℕ → List ℕ → Bool
same_letters [] [] = true
same_letters [] (d ∷ t) = false
same_letters (c ∷ s) [] = false
same_letters (c ∷ s) (d ∷ t) = (to_lower c == to_lower d) && same_letters s t

-- The C string at the head of some bytes: up to the first 0.
abbrev pub c_string : List ℕ → List ℕ
c_string [] = []
c_string (c ∷ s) = if c == 0 then [] else c ∷ c_string s
