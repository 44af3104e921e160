-- ===== src/Spc/SafeClean.antt =====
-- Unregistering of a nexus, `__unregister_and_clean` of usr/spc.c, keeps the invariant of the
-- registrations.
use tgt.Base.{
  ℕ, true, false, ◌≡◌, ◌≢◌, inl, inr, sym, ◌∙◌, List, [], ◌∷◌, Option, none, some, arith,
  Bool-cases, ◌>>=◌, subst,
}
use tgt.Scsi.Codes
use tgt.Scsi.Lu.{Registration, ScsiLu, Env, deref, unregister}
use tgt.Spc.Registration.{is_pr_type, is_holder, is_allreg}
use tgt.Spc.Register.{
  finish, next_generation, drop_reservation, pass_on, clean, unregister_and_clean,
}
use tgt.Spc.Store.{
  Elsewhere, OtherNexus, Thins, All-Thins, Apart-Thins, unregister-Thins, deref_here,
  deref-unregister_ne,
}
use tgt.Spc.Invariant.{IsValid, IsSafe, HolderIsSound, holder_cases}

pub thinned-IsValid :
    (lu : ScsiLu) (rest : List Registration) (holder : Option ℕ)
    → Thins rest lu.registration_list
    → IsValid lu
    → HolderIsSound holder rest
    → IsValid (record lu { registration_list = rest; pr_holder = holder })
thinned-IsValid lu rest holder t v s = record {
  distinct = Apart-Thins _ t v.distinct;
  one_per_nexus = Apart-Thins _ t v.one_per_nexus;
  keyed = All-Thins _ t v.keyed;
  holder = s;
}

pub next_generation-IsValid : (lu : ScsiLu) → IsValid lu → IsValid (next_generation lu)
next_generation-IsValid lu v = record {
  distinct = v.distinct;
  one_per_nexus = v.one_per_nexus;
  keyed = v.keyed;
  holder = v.holder;
}

pub finish-IsSafe : (env : Env) → IsValid env.dev → IsSafe (finish env)
finish-IsSafe env v = next_generation-IsValid env.dev v

drop_reservation-IsValid :
    (env : Env) (reg : Registration) (rest : List Registration)
    → Thins rest env.dev.registration_list
    → IsValid env.dev
    → IsValid (drop_reservation env reg rest).dev
unfolding drop_reservation
drop_reservation-IsValid env reg rest t v =
    next_generation-IsValid _ (thinned-IsValid env.dev rest none t v tt)

pass_on-IsValid :
    (env : Env) (holder heir : Registration) (others : List Registration)
    → Thins (heir ∷ others) env.dev.registration_list
    → IsValid env.dev
    → is_pr_type holder.pr_type ≡ true
    → holder.pr_scope ≡ Codes.pr_lu_scope
    → IsValid (pass_on env holder heir others).dev
unfolding pass_on
pass_on-IsValid env holder heir others t v typed scoped = record {
  distinct = Apart-Thins Elsewhere t v.distinct;
  one_per_nexus = Apart-Thins OtherNexus t v.one_per_nexus;
  keyed = All-Thins (λ r. r.key ≢ 0) t v.keyed;
  holder = (
    record heir { pr_scope = holder.pr_scope; pr_type = holder.pr_type },
    deref_here (record heir { pr_scope = holder.pr_scope; pr_type = holder.pr_type }) others,
    typed,
    scoped,
  );
}

-- The registration that stays the holder is still in the store.
stays_held :
    (lu : ScsiLu) (reg h : Registration)
    → lu.pr_holder ≡ some h.addr
    → deref lu.registration_list h.addr ≡ some h
    → is_pr_type h.pr_type ≡ true
    → h.pr_scope ≡ Codes.pr_lu_scope
    → is_holder h reg ≡ false
    → HolderIsSound lu.pr_holder (unregister reg.addr lu.registration_list)
stays_held lu reg h e found typed scoped other =
    subst (λ p. HolderIsSound p (unregister reg.addr lu.registration_list)) (sym e)
      (h, deref-unregister_ne _ _ _ (λ q. ground arith) ∙ found, typed, scoped)

clean-IsValid :
    (env : Env) (reg h : Registration) (rest : List Registration)
    → Thins rest env.dev.registration_list
    → (is_holder h reg ≡ false → HolderIsSound env.dev.pr_holder rest)
    → is_pr_type h.pr_type ≡ true
    → h.pr_scope ≡ Codes.pr_lu_scope
    → IsValid env.dev
    → IsValid (clean env reg (some h) rest).dev
unfolding clean
clean-IsValid env reg h [] t stays typed scoped v = elim (Bool-cases (is_holder h reg)) [
  | inl e ↦ rw e (drop_reservation-IsValid env reg [] t v)
  | inr e ↦ rw e (thinned-IsValid env.dev [] env.dev.pr_holder t v (stays e))
]
clean-IsValid env reg h (heir ∷ others) t stays typed scoped v =
    elim (Bool-cases (is_holder h reg)) [
      | inl e ↦ rw e (elim (Bool-cases (is_allreg h.pr_type)) [
        | inl all ↦ rw all (pass_on-IsValid env h heir others t v typed scoped)
        | inr own ↦ rw own (drop_reservation-IsValid env reg (heir ∷ others) t v)
      ])
      | inr e ↦ rw e (thinned-IsValid env.dev (heir ∷ others) env.dev.pr_holder t v (stays e))
    ]

pub unregister_and_clean-IsSafe :
    (env : Env) (reg : Registration)
    → IsValid env.dev
    → IsSafe (unregister_and_clean env reg >>= finish)
unfolding unregister_and_clean clean
unregister_and_clean-IsSafe env reg v = elim (holder_cases env.dev v) [
  | inl (null, d) ↦
      rw (d, IsSafe, ◌>>=◌, unregister_and_clean)
        (next_generation-IsValid _ (
          thinned-IsValid env.dev _ env.dev.pr_holder gone v
            (subst (λ p. HolderIsSound p rest) (sym null) tt)))
  | inr (h, e, found, d, typed, scoped) ↦
      rw (d, IsSafe, ◌>>=◌, unregister_and_clean)
        (next_generation-IsValid _ (
          clean-IsValid env reg h rest gone (stays_held env.dev reg h e found typed scoped) typed
            scoped v))
]
  where
    rest : List Registration
    rest = unregister reg.addr env.dev.registration_list

    gone : Thins rest env.dev.registration_list
    gone = unregister-Thins reg.addr env.dev.registration_list
