-- ===== src/Iscsi/Conn/Find.antt =====
-- `text_key_find` of usr/iscsi/iscsid.c.
use tgt.Base.{ℕ, zero, suc, Option, none, some, List, ◌>>=◌, length, if◌then◌else◌, same_text}
use tgt.Iscsi.Keys.{split_at}

-- One round of the loop: a key as it stands before `=`, its value, and the bytes after it.
unfoldable pub next_pair : List ℕ → Option (List ℕ × List ℕ × List ℕ)
unfolding split_at
next_pair bytes = do
  (key, tail) ← split_at b'=' bytes
  (value, rest) ← split_at 0 tail
  some (key, value, rest)

-- The loop, with fuel.
unfoldable pub find_key : ℕ → List ℕ → List ℕ → Option (List ℕ)
unfolding next_pair
find_key zero name bytes = none
find_key (suc fuel) name bytes = elim (next_pair bytes) [
  | none ↦ none
  | some (key, value, rest) ↦
      let later = find_key fuel name rest in if same_text key name then some value else later
]

-- A round passes one byte at least.
unfoldable pub text_key_find : List ℕ → List ℕ → Option (List ℕ)
unfolding find_key
text_key_find bytes name = find_key (length bytes) name bytes
