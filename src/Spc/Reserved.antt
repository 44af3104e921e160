-- ===== src/Spc/Reserved.antt =====
-- What a successful RESERVE of usr/spc.c leaves behind.
use tgt.Base.{
  ◌≡◌, refl, inl, inr, Option, none, some, ◌==◌, ==_iff, Bool-cases, Option-cases, subst,
}
use tgt.Scsi.Codes
use tgt.Scsi.Lu.{Registration, Env, Outcome, sense, deref}
use tgt.Spc.Registration.{cdb_scope, cdb_type, deref_holder, registration_of, is_holder}
use tgt.Spc.Reserve.{reserve_as, reserve_is_malformed, spc_pr_reserve}
use tgt.Spc.Store.{deref-modify_self, lookup_by_nexus-deref}
use tgt.Spc.Invariant.{IsValid, holder_known}

-- The reservation that the command asks for is held.
abbrev Holds : Env → Env → Type 0
Holds env after =
    (h : Registration) × (deref_holder after.dev ≡ some (some h))
    × (h.pr_type ≡ cdb_type env.cmd)
    × (h.pr_scope ≡ cdb_scope env.cmd)

abbrev HoldsIfGood : Env → Outcome → Type 0
HoldsIfGood env none = Unit
HoldsIfGood env (some (status, after)) = status ≡ Codes.sam_stat_good → Holds env after

reserve_as-HoldsIfGood :
    (env : Env) (reg : Registration) (holder : Option Registration)
    → deref_holder env.dev ≡ some holder
    → deref env.dev.registration_list reg.addr ≡ some reg
    → HoldsIfGood env (reserve_as env reg holder)
unfolding reserve_as deref_holder
reserve_as-HoldsIfGood env reg none d found = λ _. (
  record reg { pr_scope = cdb_scope env.cmd; pr_type = cdb_type env.cmd },
  rw
      (
        deref-modify_self
            (λ r. record r { pr_scope = cdb_scope env.cmd; pr_type = cdb_type env.cmd }) (λ r. refl)
            reg.addr env.dev.registration_list reg found,
        deref_holder,
      )
      refl,
  refl,
  refl,
)
reserve_as-HoldsIfGood env reg (some h) d found = elim (Bool-cases (is_holder h reg)) [
  | inr e ↦ rw e (λ q. absurd (cc))
  | inl e ↦ rw e (elim (Bool-cases (h.pr_type == cdb_type env.cmd)) [
    | inr f ↦ rw f (λ q. absurd (cc))
    | inl f ↦ rw f (elim (Bool-cases (h.pr_scope == cdb_scope env.cmd)) [
      | inr g ↦ rw g (λ q. absurd (cc))
      | inl g ↦ rw g (λ _. (h, d, (==_iff _ _).0 f, (==_iff _ _).0 g))
    ])
  ])
]

spc_pr_reserve-HoldsIfGood : (env : Env) → IsValid env.dev → HoldsIfGood env (spc_pr_reserve env)
unfolding spc_pr_reserve sense
spc_pr_reserve-HoldsIfGood env v = elim (Bool-cases (reserve_is_malformed env.cmd)) [
  | inl bad ↦ rw bad (λ q. absurd (cc))
  | inr fine ↦ rw fine (elim (Option-cases (registration_of env)) [
    | inl e ↦ rw e (λ q. absurd (cc))
    | inr (reg, e) ↦
        let (h, d) = holder_known env.dev v in
        rw e
          (rw d (reserve_as-HoldsIfGood env reg h d (lookup_by_nexus-deref _ _ reg v.distinct e)))
  ])
]

-- After a RESERVE that returns GOOD on a valid logical unit, a reservation of the type and the
-- scope that the command asked for is held.
pub spc_pr_reserve-holds :
    (env after : Env)
    → IsValid env.dev
    → spc_pr_reserve env ≡ some (Codes.sam_stat_good, after)
    → (h : Registration) × (deref_holder after.dev ≡ some (some h))
      × (h.pr_type ≡ cdb_type env.cmd)
      × (h.pr_scope ≡ cdb_scope env.cmd)
spc_pr_reserve-holds env after v e =
    subst (HoldsIfGood env) e (spc_pr_reserve-HoldsIfGood env v) refl
