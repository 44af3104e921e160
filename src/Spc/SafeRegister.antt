-- ===== src/Spc/SafeRegister.antt =====
-- `spc_pr_register` of usr/spc.c keeps the invariant of the registrations, on all its branches.
use tgt.Base.{
  ℕ, Bool, false, ◌||◌, ◌≡◌, refl, ◌≢◌, inl, inr, sym, ◌∙◌, List, [], ◌∷◌, ◌++◌, Option, none, some,
  arith, All, All-imp, All-append, ◌==◌, ==_iff, Bool-cases, Option-cases, subst,
}
use tgt.Scsi.Cmd.{NexusId}
use tgt.Scsi.Lu.{Registration, ScsiLu, Env, deref, modify}
use tgt.Spc.Registration.{
  of_nexus, lookup_registration_by_nexus, cmd_res_key, cmd_sa_res_key, check_pr_out_basic_parameter,
  registration_of,
}
use tgt.Spc.Register.{
  is_forced, change_registration, new_registration, register_new, add_registration, spc_pr_register,
}
use tgt.Spc.Store.{Apart, nexus_of, deref-modify_self, deref-modify_ne, All-modify, Apart-modify}
use tgt.Spc.Invariant.{IsValid, IsSafe, HolderIsSound, sense-IsSafe}
use tgt.Spc.SafeClean.{next_generation-IsValid, finish-IsSafe, unregister_and_clean-IsSafe}

-- The allocator returns an address that is not in use.
abbrev pub IsFresh : Option ℕ → List Registration → Type 0
IsFresh none regs = Unit
IsFresh (some a) regs = All (λ r. r.addr ≢ a) regs

-- `target_cmd_queue` takes the nexus of a command by `cmd_itn_id`.
abbrev pub IsQueued : Env → Type 0
IsQueued env = env.cmd.cmd_itn_id ≡ env.cmd.it_nexus.itn_id

-- A new key, other than 0, for a registration in the store.
rekeyed-IsValid :
    (lu : ScsiLu) (a key : ℕ)
    → key ≢ 0
    → IsValid lu
    → IsValid (record lu {
      registration_list = modify a (λ r. record r { key = key }) lu.registration_list;
    })
rekeyed-IsValid lu a key nonzero v = record {
  distinct = Apart-modify _ _ _ _ (λ r s h. h) (λ r s h. h) v.distinct;
  one_per_nexus = Apart-modify _ _ _ _ (λ r s h. h) (λ r s h. h) v.one_per_nexus;
  keyed = All-modify _ _ _ _ (λ r h. nonzero) v.keyed;
  holder = sound lu.pr_holder v.holder;
}
  where
    sound :
        (p : Option ℕ)
        → HolderIsSound p lu.registration_list
        → HolderIsSound p (modify a (λ r. record r { key = key }) lu.registration_list)
    sound none s = tt
    sound (some b) (h, found, typed, scoped) = elim (Bool-cases (a == b)) [
      | inl e ↦ (
        record h { key = key },
        subst
            (λ c.
              deref (modify c (λ r. record r { key = key }) lu.registration_list) b
              ≡ some (record h { key = key }))
            (sym ((==_iff a b).0 e))
            (deref-modify_self _ (λ r. refl) b lu.registration_list h found),
        typed,
        scoped,
      )
      | inr e ↦ (
        h,
        deref-modify_ne _ (λ r. refl) a b lu.registration_list (λ q. ground arith) ∙ found,
        typed,
        scoped,
      )
    ]

deref-append :
    (xs ys : List Registration) (a : ℕ) (h : Registration)
    → deref xs a ≡ some h
    → deref (xs ++ ys) a ≡ some h
unfolding deref
deref-append [] ys a h e = absurd (cc)
deref-append (x ∷ xs) ys a h e = ground (arith, deref-append xs ys a h)

Apart-append_one :
    (R : Registration → Registration → Type 0) (xs : List Registration) (new : Registration)
    → Apart R xs
    → All (λ r. R r new) xs
    → Apart R (xs ++ new ∷ [])
Apart-append_one R [] new d h = (tt, tt)
Apart-append_one R (x ∷ xs) new d h =
    (All-append _ xs (new ∷ []) d.0 (h.0, tt), Apart-append_one R xs new d.1 h.1)

-- A search that fails has looked at every registration.
lookup-none :
    (regs : List Registration) (itn : NexusId)
    → lookup_registration_by_nexus regs itn ≡ none
    → All (λ r. of_nexus itn r ≡ false) regs
unfolding lookup_registration_by_nexus
lookup-none [] itn h = tt
lookup-none (x ∷ xs) itn h = elim (Bool-cases (of_nexus itn x)) [
  | inl e ↦ absurd (cc (rw e at h))
  | inr e ↦ (e, lookup-none xs itn (rw e at h))
]

abbrev Joins : ScsiLu → Registration → Type 0
Joins lu new =
    All (λ r. r.addr ≢ new.addr) lu.registration_list
    × All (λ r. of_nexus (nexus_of new) r ≡ false) lu.registration_list
    × (new.key ≢ 0)

added-IsValid :
    (lu : ScsiLu) (new : Registration)
    → Joins lu new
    → IsValid lu
    → IsValid (record lu { registration_list = lu.registration_list ++ new ∷ [] })
added-IsValid lu new (fresh, unknown, nonzero) v = record {
  distinct = Apart-append_one _ _ new v.distinct (All-imp _ _ _ (λ r ne e. ne (sym e)) fresh);
  one_per_nexus =
      Apart-append_one _ _ new v.one_per_nexus (All-imp _ _ _ (λ r h. ground arith) unknown);
  keyed = All-append _ _ _ v.keyed (nonzero, tt);
  holder = sound lu.pr_holder v.holder;
}
  where
    sound :
        (p : Option ℕ)
        → HolderIsSound p lu.registration_list
        → HolderIsSound p (lu.registration_list ++ new ∷ [])
    sound none s = tt
    sound (some b) (h, found, typed, scoped) = (h, deref-append _ _ b h found, typed, scoped)

change_registration-IsSafe :
    (env : Env) (reg : Registration) (force : Bool) (res_key sa_res_key : ℕ)
    → IsValid env.dev
    → IsSafe (change_registration env reg force res_key sa_res_key)
unfolding change_registration
change_registration-IsSafe env reg force res_key sa_res_key v =
    elim (Bool-cases (force || (reg.key == res_key))) [
      | inr other ↦ rw other v
      | inl same ↦ rw same (elim (Bool-cases (sa_res_key == 0)) [
        | inl e ↦ rw e (unregister_and_clean-IsSafe env reg v)
        | inr e ↦ rw e (
            next_generation-IsValid _
              (rekeyed-IsValid env.dev reg.addr sa_res_key (λ q. ground arith) v))
      ])
    ]

-- The nexus that sends the command has no registration yet.
register_new-IsSafe :
    (alloc : Option ℕ) (env : Env) (sa_res_key : ℕ)
    → IsFresh alloc env.dev.registration_list
    → IsQueued env
    → registration_of env ≡ none
    → sa_res_key ≢ 0
    → IsValid env.dev
    → IsSafe (register_new alloc env sa_res_key)
unfolding register_new
register_new-IsSafe none env sa_res_key f q u nonzero v = sense-IsSafe _ _ env v
register_new-IsSafe (some a) env sa_res_key f q u nonzero v =
    next_generation-IsValid _
      (added-IsValid env.dev (new_registration a sa_res_key env) (f, unknown, nonzero) v)
  where
    unknown :
        All
          (λ r. of_nexus (nexus_of (new_registration a sa_res_key env)) r ≡ false)
          env.dev.registration_list
    unknown = All-imp _ _ _ (λ r h. rw q h) (lookup-none _ _ u)

add_registration-IsSafe :
    (alloc : Option ℕ) (env : Env) (force : Bool) (res_key sa_res_key : ℕ)
    → IsFresh alloc env.dev.registration_list
    → IsQueued env
    → registration_of env ≡ none
    → IsValid env.dev
    → IsSafe (add_registration alloc env force res_key sa_res_key)
unfolding add_registration
add_registration-IsSafe alloc env force res_key sa_res_key fresh queued unknown v =
    elim (Bool-cases (force || (res_key == 0))) [
      | inr other ↦ rw other v
      | inl same ↦ rw same (elim (Bool-cases (sa_res_key == 0)) [
        | inl e ↦ rw e (finish-IsSafe env v)
        | inr e ↦
            rw e
              (register_new-IsSafe alloc env sa_res_key fresh queued unknown (λ q. ground arith) v)
      ])
    ]

-- REGISTER and REGISTER AND IGNORE EXISTING KEY follow no stale pointer and keep the invariant, if
-- the command was queued for its nexus and the allocator returns an unused address.
pub spc_pr_register-IsSafe :
    (alloc : Option ℕ) (env : Env)
    → IsFresh alloc env.dev.registration_list
    → IsQueued env
    → IsValid env.dev
    → IsSafe (spc_pr_register alloc env)
unfolding spc_pr_register
spc_pr_register-IsSafe alloc env fresh queued v =
    elim (Bool-cases (check_pr_out_basic_parameter env.cmd)) [
      | inl bad ↦ rw bad (sense-IsSafe _ _ env v)
      | inr fine ↦ rw fine (elim (Option-cases (registration_of env)) [
        | inl e ↦ rw e (
            add_registration-IsSafe alloc env (is_forced env.cmd) (cmd_res_key env.cmd)
              (cmd_sa_res_key env.cmd) fresh queued e v)
        | inr (reg, e) ↦ rw e (
            change_registration-IsSafe env reg (is_forced env.cmd) (cmd_res_key env.cmd)
              (cmd_sa_res_key env.cmd) v)
      ])
    ]
