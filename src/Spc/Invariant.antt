-- ===== src/Spc/Invariant.antt =====
-- The invariant of a logical unit's registrations, and that RESERVE, RELEASE and CLEAR keep it.
use tgt.Base.{
  ℕ, true, ◌≡◌, refl, ◌≢◌, ◌⊎◌, inl, inr, sym, ◌∙◌, List, Option, none, some, arith, All,
  Bool-cases, Option-cases, ap, subst, some_injective,
}
use tgt.Scsi.Codes
use tgt.Scsi.Lu.{Registration, ScsiLu, Env, Outcome, sense, deref}
use tgt.Spc.Registration.{
  is_pr_type, cdb_scope, cdb_type, deref_holder, check_pr_out_basic_parameter, registration_of,
}
use tgt.Spc.Reserve.{
  mark, reserve_as, reserve_is_malformed, spc_pr_reserve, release_as, spc_pr_release,
}
use tgt.Spc.Preempt.{spc_pr_clear}
use tgt.Spc.Store.{
  Apart, Elsewhere, OtherNexus, deref_addr, deref-modify_self, All-modify, Apart-modify,
  lookup_by_nexus-deref,
}

-- `pr_holder` is null or points to a registration with a reservation of the logical unit.
abbrev pub HolderIsSound : Option ℕ → List Registration → Type 0
HolderIsSound none regs = Unit
HolderIsSound (some a) regs =
    (h : Registration) × (deref regs a ≡ some h)
    × (is_pr_type h.pr_type ≡ true)
    × (h.pr_scope ≡ Codes.pr_lu_scope)

pub record IsValid (lu : ScsiLu) : Type 0 where
  pub distinct : Apart Elsewhere lu.registration_list
  pub one_per_nexus : Apart OtherNexus lu.registration_list
  pub keyed : All (λ r. r.key ≢ 0) lu.registration_list
  pub holder : HolderIsSound lu.pr_holder lu.registration_list

-- The handler touches no memory that is not its own, and leaves a valid logical unit.
abbrev pub IsSafe : Outcome → Type 0
IsSafe none = ⊥
IsSafe (some (status, env)) = IsValid env.dev

abbrev pub HeldBy : ScsiLu → Type 0
HeldBy lu =
    (h : Registration) × (lu.pr_holder ≡ some h.addr)
    × (deref lu.registration_list h.addr ≡ some h)
    × (deref_holder lu ≡ some (some h))
    × (is_pr_type h.pr_type ≡ true)
    × (h.pr_scope ≡ Codes.pr_lu_scope)

pub holder_cases :
    (lu : ScsiLu) → IsValid lu → ((lu.pr_holder ≡ none) × (deref_holder lu ≡ some none)) ⊎ HeldBy lu
unfolding deref_holder
holder_cases lu v = by_pointer lu.pr_holder refl v.holder
  where
    by_pointer :
        (p : Option ℕ)
        → lu.pr_holder ≡ p
        → HolderIsSound p lu.registration_list
        → ((lu.pr_holder ≡ none) × (deref_holder lu ≡ some none)) ⊎ HeldBy lu
    by_pointer none e s = inl (e, rw (e, deref_holder))
    by_pointer (some a) e (h, found, typed, scoped) =
        let same : h.addr ≡ a = deref_addr lu.registration_list a h found in
        inr (
          h,
          e ∙ ap some (sym same),
          subst (λ b. deref lu.registration_list b ≡ some h) (sym same) found,
          rw (e, deref_holder) (rw found),
          typed,
          scoped,
        )

-- Writing the scope and type of a registration keeps all but the holder's part.
pub mark-IsValid :
    (lu : ScsiLu) (reg : Registration) (scope type : ℕ) (holder : Option ℕ)
    → IsValid lu
    → HolderIsSound holder (mark reg scope type lu.registration_list)
    → IsValid (record lu {
      registration_list = mark reg scope type lu.registration_list;
      pr_holder = holder;
    })
mark-IsValid lu reg scope type holder v s = record {
  distinct = Apart-modify _ _ _ _ (λ r s h. h) (λ r s h. h) v.distinct;
  one_per_nexus = Apart-modify _ _ _ _ (λ r s h. h) (λ r s h. h) v.one_per_nexus;
  keyed = All-modify _ _ _ _ (λ r h. h) v.keyed;
  holder = s;
}

pub sense-IsSafe : (key asc : ℕ) (env : Env) → IsValid env.dev → IsSafe (sense key asc env)
unfolding sense
sense-IsSafe key asc env v = v

reserve_as-IsSafe :
    (env : Env) (reg : Registration) (holder : Option Registration)
    → IsValid env.dev
    → is_pr_type (cdb_type env.cmd) ≡ true
    → cdb_scope env.cmd ≡ Codes.pr_lu_scope
    → deref env.dev.registration_list reg.addr ≡ some reg
    → IsSafe (reserve_as env reg holder)
unfolding reserve_as
reserve_as-IsSafe env reg none v typed scoped found =
    mark-IsValid env.dev reg (cdb_scope env.cmd) (cdb_type env.cmd) (some reg.addr) v (
      _,
      deref-modify_self _ (λ r. refl) reg.addr env.dev.registration_list reg found,
      typed,
      scoped,
    )
reserve_as-IsSafe env reg (some h) v typed scoped found = ground arith

pub holder_known :
    (lu : ScsiLu) → IsValid lu → (h : Option Registration) × (deref_holder lu ≡ some h)
holder_known lu v = elim (holder_cases lu v) [
  | inl (_, e) ↦ (none, e)
  | inr (h, _, _, e, _, _) ↦ (some h, e)
]

-- RESERVE follows no stale pointer, and keeps the invariant.
pub spc_pr_reserve-IsSafe : (env : Env) → IsValid env.dev → IsSafe (spc_pr_reserve env)
unfolding spc_pr_reserve
spc_pr_reserve-IsSafe env v = elim (Bool-cases (reserve_is_malformed env.cmd)) [
  | inl bad ↦ rw bad (sense-IsSafe _ _ env v)
  | inr fine ↦ rw fine (elim (Option-cases (registration_of env)) [
    | inl e ↦ rw e v
    | inr (reg, e) ↦
        let (h, d) = holder_known env.dev v in
        rw e (
          rw d (
            reserve_as-IsSafe env reg h v (ground arith) (ground arith)
              (lookup_by_nexus-deref _ _ reg v.distinct e)))
  ])
]

release_as-IsSafe :
    (env : Env) (reg : Registration) (holder : Option Registration)
    → IsValid env.dev
    → IsSafe (release_as env reg holder)
unfolding release_as sense
release_as-IsSafe env reg none v = v
release_as-IsSafe env reg (some h) v = ground (arith, mark-IsValid env.dev reg 0 0 none v tt)

-- RELEASE follows no stale pointer, and keeps the invariant.
pub spc_pr_release-IsSafe : (env : Env) → IsValid env.dev → IsSafe (spc_pr_release env)
unfolding spc_pr_release
spc_pr_release-IsSafe env v = elim (Bool-cases (check_pr_out_basic_parameter env.cmd)) [
  | inl bad ↦ rw bad (sense-IsSafe _ _ env v)
  | inr fine ↦ rw fine (elim (Option-cases (registration_of env)) [
    | inl e ↦ rw e v
    | inr (reg, e) ↦
        let (h, d) = holder_known env.dev v in rw e (rw d (release_as-IsSafe env reg h v))
  ])
]

-- CLEAR follows no stale pointer, and keeps the invariant.
pub spc_pr_clear-IsSafe : (env : Env) → IsValid env.dev → IsSafe (spc_pr_clear env)
unfolding spc_pr_clear
spc_pr_clear-IsSafe env v = elim (Bool-cases (check_pr_out_basic_parameter env.cmd)) [
  | inl bad ↦ rw bad (sense-IsSafe _ _ env v)
  | inr fine ↦ rw fine (elim (Option-cases (registration_of env)) [
    | inl e ↦ rw e v
    | inr (reg, e) ↦ let (h, d) = holder_known env.dev v in rw e (rw d (ground arith))
  ])
]

-- What is known of a holder that was read.
pub holder_read :
    (lu : ScsiLu) (h : Registration)
    → IsValid lu
    → deref_holder lu ≡ some (some h)
    → (lu.pr_holder ≡ some h.addr)
      × (deref lu.registration_list h.addr ≡ some h)
      × (is_pr_type h.pr_type ≡ true)
      × (h.pr_scope ≡ Codes.pr_lu_scope)
holder_read lu h v e = elim (holder_cases lu v) [
  | inl (_, d) ↦ absurd (cc)
  | inr (k, p, stored, d, typed, scoped) ↦
      subst
        (λ r.
          (lu.pr_holder ≡ some r.addr)
          × (deref lu.registration_list r.addr ≡ some r)
          × (is_pr_type r.pr_type ≡ true)
          × (r.pr_scope ≡ Codes.pr_lu_scope))
        (some_injective (some_injective (sym d ∙ e))) (p, stored, typed, scoped)
]
