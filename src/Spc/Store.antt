-- ===== src/Spc/Store.antt =====
-- The registrations of a logical unit as a store: what is read back after a write or a removal.
use tgt.Base.{
  ℕ, Bool, false, ◌≡◌, refl, ◌≢◌, sym, ap, List, [], ◌∷◌, ◌||◌, some, some_injective, ==_iff, subst,
  ◌⊎◌, inl, inr, arith, All, All-imp, ◌∙◌, ◌==◌, ==_refl, ==_ne, Bool-cases,
}
use tgt.Scsi.Cmd.{NexusId}
use tgt.Scsi.Lu.{Registration, deref, modify, unregister}
use tgt.Spc.Registration.{of_nexus, lookup_registration_by_nexus, lookup_registration_by_key}
use tgt.Spc.Preempt.{keep_after}

-- Every registration stands in the relation `R` to those behind it.
abbrev pub Apart : (Registration → Registration → Type 0) → List Registration → Type 0
Apart R [] = Unit
Apart R (r ∷ rest) = All (R r) rest × Apart R rest

-- Two registrations at different addresses.
abbrev pub Elsewhere : Registration → Registration → Type 0
Elsewhere r s = s.addr ≢ r.addr

abbrev pub nexus_of : Registration → NexusId
nexus_of r = record { itn_id = r.nexus_id; ctime = r.ctime }

-- Two registrations of different nexuses.
abbrev pub OtherNexus : Registration → Registration → Type 0
OtherNexus r s = of_nexus (nexus_of r) s ≡ false

-- `xs` is `ys` without some of its entries.
pub data Thins : List Registration → List Registration → Type 0 where
  done : Thins [] []
  keep : (r : Registration) {xs ys : List Registration} → Thins xs ys → Thins (r ∷ xs) (r ∷ ys)
  drop : (r : Registration) {xs ys : List Registration} → Thins xs ys → Thins xs (r ∷ ys)

pub Thins-refl : (xs : List Registration) → Thins xs xs
Thins-refl [] = done
Thins-refl (x ∷ xs) = keep x (Thins-refl xs)

pub All-Thins {κ} :
    (P : Registration → Type κ) {xs ys : List Registration} → Thins xs ys → All P ys → All P xs
All-Thins P done h = tt
All-Thins P (keep r t) h = (h.0, All-Thins P t h.1)
All-Thins P (drop r t) h = All-Thins P t h.1

pub Apart-Thins :
    (R : Registration → Registration → Type 0) {xs ys : List Registration}
    → Thins xs ys
    → Apart R ys
    → Apart R xs
Apart-Thins R done h = tt
Apart-Thins R (keep r t) h = (All-Thins _ t h.0, Apart-Thins R t h.1)
Apart-Thins R (drop r t) h = Apart-Thins R t h.1

pub unregister-Thins : (a : ℕ) (xs : List Registration) → Thins (unregister a xs) xs
unfolding unregister
unregister-Thins a [] = done
unregister-Thins a (x ∷ xs) = elim (Bool-cases (x.addr == a)) [
  | inl e ↦ rw e (drop x (Thins-refl xs))
  | inr e ↦ rw e (keep x (unregister-Thins a xs))
]

pub keep_after-Thins :
    (all : Bool) (key self : ℕ) (xs : List Registration) → Thins (keep_after all key self xs) xs
unfolding keep_after
keep_after-Thins all key self [] = done
keep_after-Thins all key self (x ∷ xs) = elim (Bool-cases (x.addr == self)) [
  | inl e ↦ rw e (keep x (keep_after-Thins all key self xs))
  | inr e ↦ rw e (elim (Bool-cases ((x.key == key) || all)) [
    | inl k ↦ rw k (drop x (keep_after-Thins all key self xs))
    | inr k ↦ rw k (keep x (keep_after-Thins all key self xs))
  ])
]

-- A read finds the head, or looks further.
pub deref_cases :
    (x : Registration) (xs : List Registration) (a : ℕ) (r : Registration)
    → deref (x ∷ xs) a ≡ some r
    → ((x ≡ r) × (x.addr ≡ a)) ⊎ ((x.addr ≢ a) × (deref xs a ≡ some r))
unfolding deref
deref_cases x xs a r h = elim (Bool-cases (x.addr == a)) [
  | inl p ↦ inl (some_injective (rw p at h), (==_iff x.addr a).0 p)
  | inr p ↦ inr (λ e. ground arith, rw p at h)
]

pub deref_here : (x : Registration) (xs : List Registration) → deref (x ∷ xs) x.addr ≡ some x
unfolding deref
deref_here x xs = simp (==_refl x.addr)

pub deref_later :
    (x : Registration) (xs : List Registration) (a : ℕ) → a ≢ x.addr → deref (x ∷ xs) a ≡ deref xs a
unfolding deref
deref_later x xs a ne = simp (==_ne x.addr a (λ e. ne (sym e)))

pub deref_addr :
    (xs : List Registration) (a : ℕ) (r : Registration) → deref xs a ≡ some r → r.addr ≡ a
unfolding deref
deref_addr [] a r h = cc
deref_addr (x ∷ xs) a r h = elim (deref_cases x xs a r h) [
  | inl (e, p) ↦ rw (← e) p
  | inr (_, p) ↦ deref_addr xs a r p
]

pub All-deref {κ} :
    (P : Registration → Type κ) (xs : List Registration) (a : ℕ) (r : Registration)
    → All P xs
    → deref xs a ≡ some r
    → P r
unfolding deref
All-deref P [] a r h e = absurd (cc)
All-deref P (x ∷ xs) a r h e = elim (deref_cases x xs a r e) [
  | inl (p, _) ↦ subst P p h.0
  | inr (_, p) ↦ All-deref P xs a r h.1 p
]

pub deref-unregister_ne :
    (a b : ℕ) (xs : List Registration) → a ≢ b → deref (unregister a xs) b ≡ deref xs b
unfolding deref unregister
deref-unregister_ne a b [] ne = refl
deref-unregister_ne a b (x ∷ xs) ne = ground (arith, deref-unregister_ne a b xs ne)

module _ (f : Registration → Registration) (fixed : (r : Registration) → (f r).addr ≡ r.addr) where
  pub deref-modify_self :
      (a : ℕ) (xs : List Registration) (r : Registration)
      → deref xs a ≡ some r
      → deref (modify a f xs) a ≡ some (f r)
  unfolding deref modify
  deref-modify_self a [] r h = cc
  deref-modify_self a (x ∷ xs) r h = elim (Bool-cases (x.addr == a)) [
    | inl p ↦ simp (p, fixed x) (ap (λ (y : Registration). some (f y)) (some_injective (rw p at h)))
    | inr p ↦ rw (p, p) (deref-modify_self a xs r (rw p at h))
  ]

  pub deref-modify_ne :
      (a b : ℕ) (xs : List Registration) → a ≢ b → deref (modify a f xs) b ≡ deref xs b
  unfolding deref modify
  deref-modify_ne a b [] ne = refl
  deref-modify_ne a b (x ∷ xs) ne = ground (arith, fixed x, deref-modify_ne a b xs ne)

-- A property that a write keeps at its target holds of all that is in the store.
pub All-modify {κ} :
    (P : Registration → Type κ) (a : ℕ) (f : Registration → Registration) (xs : List Registration)
    → ((r : Registration) → P r → P (f r))
    → All P xs
    → All P (modify a f xs)
unfolding modify
All-modify P a f [] h p = tt
All-modify P a f (x ∷ xs) h p = elim (Bool-cases (x.addr == a)) [
  | inl e ↦ rw e (h x p.0, p.1)
  | inr e ↦ rw e (p.0, All-modify P a f xs h p.1)
]

pub Apart-modify :
    (R : Registration → Registration → Type 0) (a : ℕ) (f : Registration → Registration)
    (xs : List Registration)
    → ((r s : Registration) → R r s → R (f r) s)
    → ((r s : Registration) → R r s → R r (f s))
    → Apart R xs
    → Apart R (modify a f xs)
unfolding modify
Apart-modify R a f [] left right p = tt
Apart-modify R a f (x ∷ xs) left right p = elim (Bool-cases (x.addr == a)) [
  | inl e ↦ rw e (All-imp _ _ xs (left x) p.0, p.1)
  | inr e ↦ rw e (All-modify _ a f xs (right x) p.0, Apart-modify R a f xs left right p.1)
]

-- What a search by nexus finds is in the store.
pub lookup_by_nexus-deref :
    (regs : List Registration) (itn : NexusId) (r : Registration)
    → Apart Elsewhere regs
    → lookup_registration_by_nexus regs itn ≡ some r
    → deref regs r.addr ≡ some r
unfolding lookup_registration_by_nexus
lookup_by_nexus-deref [] itn r d h = cc
lookup_by_nexus-deref (x ∷ xs) itn r d h = elim (Bool-cases (of_nexus itn x)) [
  | inl e ↦
      subst (λ s. deref (x ∷ xs) s.addr ≡ some s) (some_injective (rw e at h)) (deref_here x xs)
  | inr e ↦
      let found = lookup_by_nexus-deref xs itn r d.1 (rw e at h) in
      deref_later x xs r.addr (All-deref _ xs r.addr r d.0 found) ∙ found
]

-- ... and so is what a search by key finds, which has that key.
pub lookup_by_key-deref :
    (regs : List Registration) (key : ℕ) (r : Registration)
    → Apart Elsewhere regs
    → lookup_registration_by_key regs key ≡ some r
    → (deref regs r.addr ≡ some r) × (r.key ≡ key)
unfolding lookup_registration_by_key
lookup_by_key-deref [] key r d h = absurd (cc)
lookup_by_key-deref (x ∷ xs) key r d h = elim (Bool-cases (x.key == key)) [
  | inl e ↦
      subst (λ s. (deref (x ∷ xs) s.addr ≡ some s) × (s.key ≡ key)) (some_injective (rw e at h))
        (deref_here x xs, (==_iff x.key key).0 e)
  | inr e ↦
      let (found, same) = lookup_by_key-deref xs key r d.1 (rw e at h) in
      (deref_later x xs r.addr (All-deref _ xs r.addr r d.0 found) ∙ found, same)
]
