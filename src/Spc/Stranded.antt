-- ===== src/Spc/Stranded.antt =====
-- The PREEMPT commands after which `pr_holder` points to a registration that was freed, usr/spc.c.
use tgt.Base.{
  ℕ, true, false, ◌≡◌, refl, ◌≢◌, inl, inr, ◌∙◌, List, [], ◌∷◌, none, some, arith, ==_iff, ==_ne,
}
use tgt.Scsi.Codes
use tgt.Scsi.Lu.{Registration, Env, deref}
use tgt.Spc.Registration.{
  is_pr_type, is_allreg, deref_holder, lookup_registration_by_key, check_pr_out_basic_parameter,
  registration_of, cmd_res_key, cmd_sa_res_key,
}
use tgt.Spc.Register.{next_generation}
use tgt.Spc.Preempt.{
  takeover, nothing_taken, keep_after, key_missing, no_such_key, preempted, preempt_as,
  spc_pr_preempt,
}
use tgt.Spc.Store.{All-deref, deref_cases}
use tgt.Spc.Invariant.{IsValid, holder_read}
use tgt.Spc.SafePreempt.{deref-keep_after-none}

-- A key in the store is found.
key_missing-deref :
    (regs : List Registration) (a : ℕ) (h : Registration)
    → deref regs a ≡ some h
    → key_missing regs h.key ≡ false
unfolding lookup_registration_by_key deref
key_missing-deref [] a h e = absurd (cc)
key_missing-deref (x ∷ xs) a h e = elim (deref_cases x xs a h e) [
  | inl (same, _) ↦ ground arith
  | inr (_, found) ↦ ground (arith, key_missing-deref xs a h found)
]

-- The commands after which the pointer is stale.
pub record Strands (env : Env) (reg h : Registration) : Type 0 where
  pub well_formed : check_pr_out_basic_parameter env.cmd ≡ false
  pub sender : registration_of env ≡ some reg
  pub own_key : reg.key ≡ cmd_res_key env.cmd
  pub holds : deref_holder env.dev ≡ some (some h)
  pub all_registrants : is_allreg h.pr_type ≡ true
  pub not_holder : h.addr ≢ reg.addr
  pub named : h.key ≡ cmd_sa_res_key env.cmd

-- The environment that such a command leaves.
abbrev stranded : Env → Registration → Env
stranded env reg =
    let left = preempted env reg (cmd_sa_res_key env.cmd) nothing_taken in
    record left { dev = next_generation left.dev }

preempt_as-Strands :
    (env : Env) (reg h : Registration)
    → Strands env reg h
    → cmd_sa_res_key env.cmd ≢ 0
    → preempt_as env reg (cmd_sa_res_key env.cmd) ≡ some (Codes.sam_stat_good, stranded env reg)
unfolding preempt_as takeover
preempt_as-Strands env reg h s nonzero =
    rw (s.holds, preempt_as)
      (rw s.all_registrants (rw (==_ne (cmd_sa_res_key env.cmd) 0 nonzero) refl))

spc_pr_preempt-runs :
    (env : Env) (reg h : Registration)
    → Strands env reg h
    → cmd_sa_res_key env.cmd ≢ 0
    → no_such_key env ≡ false
    → spc_pr_preempt env ≡ some (Codes.sam_stat_good, stranded env reg)
unfolding spc_pr_preempt
spc_pr_preempt-runs env reg h s nonzero there = rw s.well_formed (
    rw s.sender (
      rw ((==_iff reg.key (cmd_res_key env.cmd)).1 s.own_key)
        (rw there (preempt_as-Strands env reg h s nonzero))))

-- Where a registrant preempts, by its key, another registrant that holds an all-registrants
-- reservation, the command succeeds and frees the holder's registration, and `pr_holder` still
-- points to it: whatever follows the pointer next reads freed memory.
pub spc_pr_preempt-Strands :
    (env : Env) (reg h : Registration)
    → Strands env reg h
    → IsValid env.dev
    → (after : Env) × (spc_pr_preempt env ≡ some (Codes.sam_stat_good, after))
      × (deref_holder after.dev ≡ none)
unfolding preempted deref_holder
spc_pr_preempt-Strands env reg h s v = (
  stranded env reg,
  spc_pr_preempt-runs env reg h s nonzero there,
  rw (held.0, deref_holder) (rw gone refl),
)
  where
    held :
        (env.dev.pr_holder ≡ some h.addr)
        × (deref env.dev.registration_list h.addr ≡ some h)
        × (is_pr_type h.pr_type ≡ true)
        × (h.pr_scope ≡ Codes.pr_lu_scope)
    held = holder_read env.dev h v s.holds

    nonzero : cmd_sa_res_key env.cmd ≢ 0
    nonzero z =
        All-deref (λ r. r.key ≢ 0) env.dev.registration_list h.addr h v.keyed held.1 (s.named ∙ z)

    there : no_such_key env ≡ false
    there =
        rw (==_ne (cmd_sa_res_key env.cmd) 0 nonzero)
          (rw (← s.named) (key_missing-deref env.dev.registration_list h.addr h held.1))

    gone :
        deref (keep_after false (cmd_sa_res_key env.cmd) reg.addr env.dev.registration_list) h.addr
        ≡ none
    gone =
        deref-keep_after-none false (cmd_sa_res_key env.cmd) reg.addr _ h.addr h v.distinct held.1 (
          rw (==_ne h.addr reg.addr s.not_holder)
            (rw ((==_iff h.key (cmd_sa_res_key env.cmd)).1 s.named) refl))
