-- ===== src/Target/Places.antt =====
-- The places for accounts of a target, usr/target.c.
use tgt.Base.{
  ℕ, zero, suc, ◌+◌, ◌≡◌, ◌≢◌, ◌⊎◌, refl, sym, ap, inl, inr, Bool, true, false, some,
  some_injective, List, [], ◌∷◌, ◌++◌, ◌==◌, arith, length, set, replicate, if◌then◌else◌,
  Bool-cases, Option-cases,
}
use tgt.Target.Account.{has_aid, replace_aid}

abbrev pub one_if_bound : ℕ → ℕ
one_if_bound a = if a == 0 then 0 else 1

-- How many places hold an account.
abbrev pub bound : List ℕ → ℕ
bound [] = 0
bound (a ∷ more) = one_if_bound a + bound more

-- No account stands in two places.
abbrev pub IsDistinct : List ℕ → Type 0
IsDistinct [] = Unit
IsDistinct (a ∷ more) = ((a ≡ 0) ⊎ (has_aid a more ≡ false)) × IsDistinct more

module _ (old new : ℕ) where
  pub replace_aid-length :
      (es bs : List ℕ) → replace_aid old new es ≡ some bs → length bs ≡ length es
  unfolding replace_aid
  replace_aid-length [] bs h = absurd (cc h)
  replace_aid-length (a ∷ es) bs h = elim (Bool-cases (a == old)) [
    | inl e ↦ rw (sym (some_injective (rw e at h))) refl
    | inr e ↦ elim (Option-cases (replace_aid old new es)) [
      | inl f ↦ absurd (cc (rw (e, f) at h))
      | inr (cs, f) ↦
          let tail : a ∷ cs ≡ bs = some_injective (rw (e, f) at h) in
          rw (sym tail) (omega (arith, replace_aid-length es cs f))
    ]
  ]

  pub replace_aid-bound :
      (es bs : List ℕ)
      → replace_aid old new es ≡ some bs
      → bound bs + one_if_bound old ≡ bound es + one_if_bound new
  unfolding replace_aid
  replace_aid-bound [] bs h = absurd (cc h)
  replace_aid-bound (a ∷ es) bs h = elim (Bool-cases (a == old)) [
    | inl e ↦
        let same : a ≡ old = ground (arith, e) in
        rw (sym (some_injective (rw e at h)), same) (omega arith)
    | inr e ↦ elim (Option-cases (replace_aid old new es)) [
      | inl f ↦ absurd (cc (rw (e, f) at h))
      | inr (cs, f) ↦
          let tail : a ∷ cs ≡ bs = some_injective (rw (e, f) at h) in
          rw (sym tail) (omega (arith, replace_aid-bound es cs f))
    ]
  ]

  pub replace_aid-has_aid :
      (x : ℕ) (es bs : List ℕ)
      → replace_aid old new es ≡ some bs
      → x ≢ new
      → has_aid x es ≡ false
      → has_aid x bs ≡ false
  unfolding replace_aid has_aid
  replace_aid-has_aid x [] bs h ne free = absurd (cc h)
  replace_aid-has_aid x (a ∷ es) bs h ne free = elim (Bool-cases (a == x)) [
    | inl f ↦ absurd (cc (rw f at free))
    | inr f ↦ elim (Bool-cases (a == old)) [
      | inl e ↦
          let other : (new == x) ≡ false = ground (arith, ne) in
          rw (sym (some_injective (rw e at h))) (rw other (rw f at free))
      | inr e ↦ elim (Option-cases (replace_aid old new es)) [
        | inl g ↦ absurd (cc (rw (e, g) at h))
        | inr (cs, g) ↦
            let tail : a ∷ cs ≡ bs = some_injective (rw (e, g) at h) in
            rw (sym tail) (rw f (replace_aid-has_aid x es cs g ne (rw f at free)))
      ]
    ]
  ]

  -- A new account that no place holds, or a place that is freed.
  pub replace_aid-IsDistinct :
      (es bs : List ℕ)
      → replace_aid old new es ≡ some bs
      → (new ≡ 0) ⊎ (has_aid new es ≡ false)
      → IsDistinct es
      → IsDistinct bs
  unfolding replace_aid has_aid
  replace_aid-IsDistinct [] bs h free d = absurd (cc h)
  replace_aid-IsDistinct (a ∷ es) bs h free d = elim (Bool-cases (a == old)) [
    | inl e ↦ rw (sym (some_injective (rw e at h))) (later free, d.1)
    | inr e ↦ elim (Option-cases (replace_aid old new es)) [
      | inl g ↦ absurd (cc (rw (e, g) at h))
      | inr (cs, g) ↦
          let tail : a ∷ cs ≡ bs = some_injective (rw (e, g) at h) in
          rw (sym tail) (apart cs g d.0, replace_aid-IsDistinct es cs g (later free) d.1)
    ]
  ]
    where
      later : (new ≡ 0) ⊎ (has_aid new (a ∷ es) ≡ false) → (new ≡ 0) ⊎ (has_aid new es ≡ false)
      later (inl z) = inl z
      later (inr f) = inr (ground (arith, f))

      stays :
          (a == new) ≡ true
          → (new ≡ 0) ⊎ (has_aid new (a ∷ es) ≡ false)
          → {b : Bool} → (a ≡ 0) ⊎ (b ≡ false)
      stays same (inl z) = inl (ground (arith, same, z))
      stays same (inr f) = absurd (ground (arith, same, f))

      apart :
          (cs : List ℕ)
          → replace_aid old new es ≡ some cs
          → (a ≡ 0) ⊎ (has_aid a es ≡ false)
          → (a ≡ 0) ⊎ (has_aid a cs ≡ false)
      apart cs g (inl z) = inl z
      apart cs g (inr f) = elim (Bool-cases (a == new)) [
        | inl same ↦ stays same free
        | inr other ↦ inr (replace_aid-has_aid a es cs g (ground (arith, other)) f)
      ]

-- The array of twice the size: the new account stands after the old ones.
pub set-append : (es zs : List ℕ) (z a : ℕ) → set (es ++ (z ∷ zs)) (length es) a ≡ es ++ (a ∷ zs)
set-append [] zs z a = refl
set-append (e ∷ es) zs z a = ap (λ r. e ∷ r) (set-append es zs z a)

bound-replicate : (n : ℕ) → bound (replicate n 0) ≡ 0
bound-replicate zero = refl
bound-replicate (suc n) = omega (arith, bound-replicate n)

has_aid-replicate : (x n : ℕ) → x ≢ 0 → has_aid x (replicate n 0) ≡ false
unfolding has_aid
has_aid-replicate x zero h = refl
has_aid-replicate x (suc n) h =
    let other : (0 == x) ≡ false = ground (arith, h) in rw other (has_aid-replicate x n h)

pub IsDistinct-replicate : (n : ℕ) → IsDistinct (replicate n 0)
IsDistinct-replicate zero = tt
IsDistinct-replicate (suc n) = (inl refl, IsDistinct-replicate n)

pub length-replicate : (n : ℕ) → length (replicate {A = ℕ} n 0) ≡ n
length-replicate zero = refl
length-replicate (suc n) = ap suc (length-replicate n)

pub bound-append :
    (es : List ℕ) (a n : ℕ) → bound (es ++ (a ∷ replicate n 0)) ≡ bound es + one_if_bound a
bound-append [] a n = omega (arith, bound-replicate n)
bound-append (e ∷ es) a n = omega (arith, bound-append es a n)

has_aid-append :
    (x : ℕ) (es : List ℕ) (a n : ℕ)
    → x ≢ 0
    → x ≢ a
    → has_aid x es ≡ false
    → has_aid x (es ++ (a ∷ replicate n 0)) ≡ false
unfolding has_aid
has_aid-append x [] a n h k free =
    let other : (a == x) ≡ false = ground (arith, k) in rw other (has_aid-replicate x n h)
has_aid-append x (e ∷ es) a n h k free = elim (Bool-cases (e == x)) [
  | inl f ↦ absurd (cc (rw f at free))
  | inr f ↦ rw f (has_aid-append x es a n h k (rw f at free))
]

pub IsDistinct-append :
    (es : List ℕ) (a n : ℕ)
    → a ≢ 0
    → has_aid a es ≡ false
    → IsDistinct es
    → IsDistinct (es ++ (a ∷ replicate n 0))
unfolding has_aid
IsDistinct-append [] a n h free d = (inr (has_aid-replicate a n h), IsDistinct-replicate n)
IsDistinct-append (e ∷ es) a n h free d = elim (Bool-cases (e == a)) [
  | inl f ↦ absurd (cc (rw f at free))
  | inr f ↦ (apart d.0, IsDistinct-append es a n h (rw f at free) d.1)
]
  where
    apart :
        (e ≡ 0) ⊎ (has_aid e es ≡ false) → (e ≡ 0) ⊎ (has_aid e (es ++ (a ∷ replicate n 0)) ≡ false)
    apart (inl z) = inl z
    apart (inr g) = elim (Bool-cases (e == 0)) [
      | inl z ↦ inl (ground (arith, z))
      | inr nonzero ↦
          inr (
            has_aid-append e es a n (ground (arith, nonzero)) (λ same. ground (arith, same, free))
              g)
    ]
