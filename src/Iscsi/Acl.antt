-- ===== src/Iscsi/Acl.antt =====
-- Which initiators a target lets in: `iqn_acl` of usr/iscsi/target.c.
use tgt.Base.{
  ℕ, zero, suc, ◌+◌, ◌≡◌, ◌∙◌, refl, ap, arith, Bool, true, false, not, Option, none, some, List,
  [], ◌∷◌, length, ◌==◌, if◌then◌else◌, same_text, Bool-cases, Option-cases, inl, inr,
}
use tgt.Target.Lookup.{ScsiTarget, target_lookup}
use tgt.Target.Acl.{has_entry, entry_from, iqn_acl_get}

-- The loop from entry `idx` on, with fuel; `enable` is whether there was an entry. The result is
-- whether the initiator is kept out.
unfoldable pub iqn_acl_from : ℕ → List ScsiTarget → ℕ → List ℕ → ℕ → Bool → Bool
unfolding iqn_acl_get
iqn_acl_from zero ts tid initiator idx enable = enable
iqn_acl_from (suc fuel) ts tid initiator idx enable =
    let rest = iqn_acl_from fuel ts tid initiator (idx + 1) true in
    elim (iqn_acl_get tid idx ts) [
      | none ↦ enable
      | some name ↦ if same_text initiator name then false else rest
    ]

abbrev pub names_of : ℕ → List ScsiTarget → List (List ℕ)
names_of tid ts = elim (target_lookup tid ts) [ none ↦ [] | some t ↦ t.iqn_acl_list ]

-- Each round passes an entry, and one more finds the end.
unfoldable pub iqn_acl : List ScsiTarget → ℕ → List ℕ → Bool
unfolding iqn_acl_from
iqn_acl ts tid initiator = iqn_acl_from (suc (length (names_of tid ts))) ts tid initiator 0 false

abbrev drop_entries : ℕ → List (List ℕ) → List (List ℕ)
drop_entries zero es = es
drop_entries (suc n) [] = []
drop_entries (suc n) (e ∷ es) = drop_entries n es

abbrev head_of : List (List ℕ) → Option (List ℕ)
head_of [] = none
head_of (e ∷ es) = some e

entry_from-drop :
    (idx i : ℕ) (es : List (List ℕ)) → entry_from (i + idx) i es ≡ head_of (drop_entries idx es)
unfolding entry_from
entry_from-drop zero i [] = refl
entry_from-drop (suc idx) i [] = refl
entry_from-drop zero i (e ∷ es) =
    let found : (i + 0 == i) ≡ true = ground arith in rw (found, entry_from) refl
entry_from-drop (suc idx) i (e ∷ es) =
    let later : (i + suc idx == i) ≡ false = ground arith in
    let moved : i + suc idx ≡ i + 1 + idx = omega arith in
    rw (later, entry_from)
      (ap (λ n. entry_from n (i + 1) es) moved ∙ entry_from-drop idx (i + 1) es)

entry_from-first :
    (idx : ℕ) (es : List (List ℕ)) → entry_from idx 0 es ≡ head_of (drop_entries idx es)
entry_from-first idx es =
    let moved : idx ≡ 0 + idx = omega arith in
    ap (λ n. entry_from n 0 es) moved ∙ entry_from-drop idx 0 es

drop_entries-next :
    (n : ℕ) (es : List (List ℕ)) (e : List ℕ) (r : List (List ℕ))
    → drop_entries n es ≡ e ∷ r
    → drop_entries (suc n) es ≡ r
drop_entries-next zero [] e r h = absurd (cc h)
drop_entries-next zero (x ∷ es) e r h = cc h
drop_entries-next (suc n) [] e r h = absurd (cc h)
drop_entries-next (suc n) (x ∷ es) e r h = drop_entries-next n es e r h

-- Whether an initiator is kept out, by the names that a target lists.
abbrev pub is_barred : List ℕ → List (List ℕ) → Bool
is_barred initiator [] = false
is_barred initiator (name ∷ names) = not (has_entry initiator (name ∷ names))

module _ (ts : List ScsiTarget) (tid : ℕ) (initiator : List ℕ) where
  iqn_acl_get-drop :
      (idx : ℕ) → iqn_acl_get tid idx ts ≡ head_of (drop_entries idx (names_of tid ts))
  unfolding iqn_acl_get
  iqn_acl_get-drop idx = elim (Option-cases (target_lookup tid ts)) [
    | inl e ↦ rw (e, iqn_acl_get, names_of) (entry_from-first idx [])
    | inr (t, e) ↦ rw (e, iqn_acl_get, names_of) (entry_from-first idx t.iqn_acl_list)
  ]

  iqn_acl_from-rest :
      (r : List (List ℕ)) (idx : ℕ)
      → drop_entries idx (names_of tid ts) ≡ r
      → iqn_acl_from (suc (length r)) ts tid initiator idx true ≡ not (has_entry initiator r)
  unfolding iqn_acl_from has_entry
  iqn_acl_from-rest [] idx h =
      let found : iqn_acl_get tid idx ts ≡ none = iqn_acl_get-drop idx ∙ ap head_of h in
      rw (found, iqn_acl_from) refl
  iqn_acl_from-rest (e ∷ r) idx h =
      let found : iqn_acl_get tid idx ts ≡ some e = iqn_acl_get-drop idx ∙ ap head_of h in
      let next : idx + 1 ≡ suc idx = omega arith in
      let rest = iqn_acl_from-rest r (idx + 1) (
        ap (λ n. drop_entries n (names_of tid ts)) next
        ∙ drop_entries-next idx (names_of tid ts) e r h) in
      elim (Bool-cases (same_text initiator e)) [
        | inl same ↦ rw (found, same, iqn_acl_from) refl
        | inr other ↦ rw (found, other, iqn_acl_from) rest
      ]

  iqn_acl_from-start :
      (r : List (List ℕ))
      → names_of tid ts ≡ r
      → iqn_acl_from (suc (length r)) ts tid initiator 0 false ≡ is_barred initiator r
  unfolding iqn_acl_from has_entry
  iqn_acl_from-start [] h =
      let found : iqn_acl_get tid 0 ts ≡ none = iqn_acl_get-drop 0 ∙ ap head_of h in
      rw (found, iqn_acl_from) refl
  iqn_acl_from-start (e ∷ r) h =
      let found : iqn_acl_get tid 0 ts ≡ some e = iqn_acl_get-drop 0 ∙ ap head_of h in
      let rest = iqn_acl_from-rest r 1 (drop_entries-next 0 (names_of tid ts) e r h) in
      elim (Bool-cases (same_text initiator e)) [
        | inl same ↦ rw (found, same, iqn_acl_from) refl
        | inr other ↦ rw (found, other, iqn_acl_from) rest
      ]

-- The search by index keeps an initiator out exactly where the target lists names and that of the
-- initiator is not among them; a target that does not exist keeps none out.
pub iqn_acl_lem :
    (ts : List ScsiTarget) (tid : ℕ) (initiator : List ℕ)
    → iqn_acl ts tid initiator ≡ is_barred initiator (names_of tid ts)
unfolding iqn_acl
iqn_acl_lem ts tid initiator = iqn_acl_from-start ts tid initiator (names_of tid ts) refl
