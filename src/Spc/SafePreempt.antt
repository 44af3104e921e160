-- ===== src/Spc/SafePreempt.antt =====
-- `spc_pr_preempt` of usr/spc.c keeps the invariant of the registrations, where the holder of an
-- all-registrants reservation is spared.
use tgt.Base.{
  ℕ, Bool, true, false, not, ◌||◌, ◌≡◌, refl, ◌≢◌, inl, inr, sym, List, [], ◌∷◌, none, some, arith,
  All, ◌==◌, ==_ne, ==_refl, Bool-cases, Option-cases, subst,
}
use tgt.Scsi.Codes
use tgt.Scsi.Lu.{Registration, Env, sense, deref}
use tgt.Spc.Registration.{
  is_pr_type, is_allreg, deref_holder, cdb_type, cdb_scope, check_pr_out_basic_parameter,
  registration_of, cmd_res_key, cmd_sa_res_key,
}
use tgt.Spc.Register.{finish}
use tgt.Spc.Reserve.{mark}
use tgt.Spc.Preempt.{
  takeover, nothing_taken, keep_after, no_such_key, preempted, preempt_as, spc_pr_preempt,
}
use tgt.Spc.Store.{
  Apart, Elsewhere, All-Thins, keep_after-Thins, deref_cases, deref-modify_self,
  lookup_by_nexus-deref,
}
use tgt.Spc.Invariant.{IsValid, IsSafe, HolderIsSound, holder_cases, sense-IsSafe, mark-IsValid}
use tgt.Spc.SafeClean.{thinned-IsValid, next_generation-IsValid}

-- The loop leaves what is its own registration, or has another key and is not swept.
pub deref-keep_after :
    (all : Bool) (key self : ℕ) (xs : List Registration) (a : ℕ) (h : Registration)
    → deref xs a ≡ some h
    → (a == self) || not ((h.key == key) || all) ≡ true
    → deref (keep_after all key self xs) a ≡ some h
unfolding keep_after deref
deref-keep_after all key self [] a h e k = cc
deref-keep_after all key self (x ∷ xs) a h e k = elim (deref_cases x xs a h e) [
  | inl (same, p) ↦ ground arith
  | inr (ne, found) ↦ ground (arith, deref-keep_after all key self xs a h found k)
]

deref-absent : (xs : List Registration) (a : ℕ) → All (λ s. s.addr ≢ a) xs → deref xs a ≡ none
unfolding deref
deref-absent [] a h = refl
deref-absent (x ∷ xs) a h = rw (==_ne x.addr a h.0) (deref-absent xs a h.1)

-- ... and what it takes off is not there afterwards.
pub deref-keep_after-none :
    (all : Bool) (key self : ℕ) (xs : List Registration) (a : ℕ) (h : Registration)
    → Apart Elsewhere xs
    → deref xs a ≡ some h
    → (a == self) || not ((h.key == key) || all) ≡ false
    → deref (keep_after all key self xs) a ≡ none
unfolding keep_after deref
deref-keep_after-none all key self [] a h d e k = refl
deref-keep_after-none all key self (x ∷ xs) a h d e k = elim (deref_cases x xs a h e) [
  | inl (same, p) ↦ ground (arith, deref-absent (keep_after all key self xs) x.addr absent)
  | inr (ne, found) ↦ ground (arith, deref-keep_after-none all key self xs a h d.1 found k)
]
  where
    absent : All (λ s. s.addr ≢ x.addr) (keep_after all key self xs)
    absent = All-Thins _ (keep_after-Thins all key self xs) d.0

-- The jump to the loop with the reservation taken over.
takes-IsValid :
    (env : Env) (reg : Registration) (sa_res_key : ℕ) (released all : Bool)
    → is_pr_type (cdb_type env.cmd) ≡ true
    → cdb_scope env.cmd ≡ Codes.pr_lu_scope
    → deref env.dev.registration_list reg.addr ≡ some reg
    → IsValid env.dev
    → IsValid
        (preempted env reg sa_res_key
          (record { takes = true; res_released = released; remove_all_reg = all })).dev
unfolding preempted
takes-IsValid env reg sa_res_key released all typed scoped found v =
    thinned-IsValid
      (record env.dev {
        registration_list =
            mark reg (cdb_scope env.cmd) (cdb_type env.cmd) env.dev.registration_list;
        pr_holder = some reg.addr;
      })
      _ (some reg.addr) (keep_after-Thins all sa_res_key reg.addr _)
      (mark-IsValid env.dev reg (cdb_scope env.cmd) (cdb_type env.cmd) (some reg.addr) v held)
      (
        _,
        deref-keep_after all sa_res_key reg.addr _ reg.addr _ held.1 (simp (==_refl reg.addr)),
        typed,
        scoped,
      )
  where
    held :
        HolderIsSound
          (some reg.addr)
          (mark reg (cdb_scope env.cmd) (cdb_type env.cmd) env.dev.registration_list)
    held = (
      _,
      deref-modify_self _ (λ r. refl) reg.addr env.dev.registration_list reg found,
      typed,
      scoped,
    )

-- The loop without a change of the holder, which it spares.
spares-IsValid :
    (env : Env) (reg : Registration) (sa_res_key : ℕ)
    → HolderIsSound env.dev.pr_holder
        (keep_after false sa_res_key reg.addr env.dev.registration_list)
    → IsValid env.dev
    → IsValid (preempted env reg sa_res_key nothing_taken).dev
unfolding preempted
spares-IsValid env reg sa_res_key s v =
    thinned-IsValid env.dev _ env.dev.pr_holder (keep_after-Thins false sa_res_key reg.addr _) v s

-- The reservation is not of an all-registrants type, or the command names no key, or not that of
-- the holder.
abbrev pub SparesHolder : Env → Registration → Type 0
SparesHolder env h =
    is_allreg h.pr_type ≡ true → cmd_sa_res_key env.cmd ≢ 0 → h.key ≢ cmd_sa_res_key env.cmd

preempt_held-IsSafe :
    (env : Env) (reg h : Registration)
    → is_pr_type (cdb_type env.cmd) ≡ true
    → cdb_scope env.cmd ≡ Codes.pr_lu_scope
    → deref env.dev.registration_list reg.addr ≡ some reg
    → env.dev.pr_holder ≡ some h.addr
    → deref env.dev.registration_list h.addr ≡ some h
    → is_pr_type h.pr_type ≡ true
    → h.pr_scope ≡ Codes.pr_lu_scope
    → SparesHolder env h
    → IsValid env.dev
    → IsSafe
        (elim (takeover env.dev
          (some h)
          (cdb_type env.cmd)
          (cdb_scope env.cmd)
          (cmd_sa_res_key env.cmd)) [
            | none ↦ sense Codes.illegal_request Codes.asc_invalid_field_in_cdb env
            | some t ↦ finish (preempted env reg (cmd_sa_res_key env.cmd) t)
          ])
unfolding takeover
preempt_held-IsSafe env reg h typed scoped found e stored htyped hscoped spared v =
    elim (Bool-cases (is_allreg h.pr_type)) [
      | inl all ↦ rw all (elim (Bool-cases (sa == 0)) [
        | inl zero_ ↦
            rw zero_
              (next_generation-IsValid _ (takes-IsValid env reg sa _ true typed scoped found v))
        | inr key ↦ rw key (
            next_generation-IsValid _
              (spares-IsValid env reg sa (kept (λ q. spared all (λ z. ground arith) q)) v))
      ])
      | inr own ↦ rw own (elim (Bool-cases (h.key == sa)) [
        | inl same ↦
            rw same
              (next_generation-IsValid _ (takes-IsValid env reg sa _ false typed scoped found v))
        | inr other ↦ rw other (elim (Bool-cases (sa == 0)) [
          | inl zero_ ↦ rw zero_ (sense-IsSafe _ _ env v)
          | inr key ↦
              rw key
                (next_generation-IsValid _ (spares-IsValid env reg sa (kept (λ q. ground arith)) v))
        ])
      ])
    ]
  where
    sa : ℕ
    sa = cmd_sa_res_key env.cmd

    kept :
        h.key ≢ cmd_sa_res_key env.cmd
        → HolderIsSound env.dev.pr_holder
            (keep_after false (cmd_sa_res_key env.cmd) reg.addr env.dev.registration_list)
    kept ne =
        subst
          (λ p.
            HolderIsSound p
              (keep_after false (cmd_sa_res_key env.cmd) reg.addr env.dev.registration_list))
          (sym e)
          (h, deref-keep_after false _ reg.addr _ h.addr h stored (ground arith), htyped, hscoped)

preempt_as-IsSafe :
    (env : Env) (reg : Registration)
    → is_pr_type (cdb_type env.cmd) ≡ true
    → cdb_scope env.cmd ≡ Codes.pr_lu_scope
    → deref env.dev.registration_list reg.addr ≡ some reg
    → ((h : Registration) → deref_holder env.dev ≡ some (some h) → SparesHolder env h)
    → IsValid env.dev
    → IsSafe (preempt_as env reg (cmd_sa_res_key env.cmd))
unfolding preempt_as
preempt_as-IsSafe env reg typed scoped found spared v = elim (holder_cases env.dev v) [
  | inl (null, d) ↦
      rw (d, IsSafe, preempt_as)
        (next_generation-IsValid _ (
          spares-IsValid env reg (cmd_sa_res_key env.cmd)
            (subst
              (λ p.
                HolderIsSound p
                  (keep_after false (cmd_sa_res_key env.cmd) reg.addr env.dev.registration_list))
              (sym null) tt)
            v))
  | inr (h, e, stored, d, htyped, hscoped) ↦
      rw (d, IsSafe, preempt_as)
        (preempt_held-IsSafe env reg h typed scoped found e stored htyped hscoped (spared h d) v)
]

-- PREEMPT follows no stale pointer and keeps the invariant, if the command has a valid type and
-- scope, and does not name the key of the holder of an all-registrants reservation.
pub spc_pr_preempt-IsSafe :
    (env : Env)
    → is_pr_type (cdb_type env.cmd) ≡ true
    → cdb_scope env.cmd ≡ Codes.pr_lu_scope
    → ((h : Registration) → deref_holder env.dev ≡ some (some h) → SparesHolder env h)
    → IsValid env.dev
    → IsSafe (spc_pr_preempt env)
unfolding spc_pr_preempt
spc_pr_preempt-IsSafe env typed scoped spared v =
    elim (Bool-cases (check_pr_out_basic_parameter env.cmd)) [
      | inl bad ↦ rw bad (sense-IsSafe _ _ env v)
      | inr fine ↦ rw fine (elim (Option-cases (registration_of env)) [
        | inl e ↦ rw e v
        | inr (reg, e) ↦ rw e (elim (Bool-cases (reg.key == cmd_res_key env.cmd)) [
          | inr wrong ↦ rw wrong v
          | inl right ↦ rw right (elim (Bool-cases (no_such_key env)) [
            | inl missing ↦ rw missing v
            | inr there ↦ rw there (
                preempt_as-IsSafe env reg typed scoped (lookup_by_nexus-deref _ _ reg v.distinct e)
                  spared v)
          ])
        ])
      ])
    ]
