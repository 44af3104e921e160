-- ===== src/Sbc/Protection.antt =====
-- What a persistent reservation of a disk protects (`spc_access_check` of usr/spc.c with the table
-- of usr/sbc.c).
use tgt.Base.{
  ℕ, Bool, true, false, ◌||◌, ◌&&◌, not, ap, inl, inr, ◌≡◌, refl, ◌∙◌, List, [], ◌∷◌, some, arith,
  byte, ◌==◌, is_one_of, if◌then◌else◌, Bool-cases,
}
use tgt.Scsi.Codes
use tgt.Scsi.Lu.{Registration, Env}
use tgt.Spc.Registration.{is_pr_type, deref_holder, registration_of}
use tgt.Spc.Access.{spc_access_check, conflict_of, holds, is_there}
use tgt.Spc.Invariant.{IsValid, holder_read}
use tgt.Sbc.Ops.{sbc_pr_conflict_bits, barred_by_all, barred_by_exclusive_access}

-- The types that shut others out of reading too.
abbrev pub is_exclusive_access : ℕ → Bool
is_exclusive_access t = is_one_of t (
    Codes.pr_type_exclusive_access ∷ Codes.pr_type_exclusive_access_regonly
    ∷ Codes.pr_type_exclusive_access_allreg ∷ [])

-- The check, where the holder and the sender's registration are known.
access_check_known :
    (ops : ℕ → ℕ) (env : Env) (h : Registration)
    → deref_holder env.dev ≡ some (some h)
    → spc_access_check ops env
      ≡ some (
          if holds (registration_of env) h
          then false
          else conflict_of (ops (byte env.cmd.scb 0)) h.pr_type (is_there (registration_of env)))
unfolding spc_access_check
access_check_known ops env h d = rw (d, spc_access_check) refl

-- The holder; and a registrant, unless the reservation is for its holder alone.
abbrev pub is_privileged : Env → Registration → Bool
is_privileged env h =
    holds (registration_of env) h
    || (is_there (registration_of env)
        && not (
            is_one_of h.pr_type
              (Codes.pr_type_write_exclusive ∷ Codes.pr_type_exclusive_access ∷ [])))

conflict_table :
    (op t : ℕ) (registered : Bool)
    → is_pr_type t ≡ true
    → conflict_of (sbc_pr_conflict_bits op) t registered ≡ (
        not (
          registered
          && not
              (is_one_of t (Codes.pr_type_write_exclusive ∷ Codes.pr_type_exclusive_access ∷ [])))
        && (is_one_of op barred_by_all
            || (is_one_of op barred_by_exclusive_access && is_exclusive_access t)))
unfolding sbc_pr_conflict_bits conflict_of
conflict_table op t registered p = elim (Bool-cases (is_one_of op barred_by_all)) [
  | inl e ↦ rw e (ground arith)
  | inr e ↦ rw e (elim (Bool-cases (is_one_of op barred_by_exclusive_access)) [
    | inl f ↦ rw f (ground arith)
    | inr f ↦ rw f (elim (Bool-cases (op == Codes.start_stop)) [
      | inl g ↦ rw g (ground arith)
      | inr g ↦ rw g (ground arith)
    ])
  ])
]

-- While a reservation is held on a valid logical unit, the check refuses a command exactly if its
-- nexus is not privileged and the command is barred by all reservations, or the reservation is of
-- an exclusive access type and the command is barred by those.
pub spc_access_check_lem :
    (env : Env) (h : Registration)
    → IsValid env.dev
    → deref_holder env.dev ≡ some (some h)
    → spc_access_check sbc_pr_conflict_bits env
      ≡ some (
          not (is_privileged env h)
          && (is_one_of (byte env.cmd.scb 0) barred_by_all
              || (is_one_of (byte env.cmd.scb 0) barred_by_exclusive_access
                  && is_exclusive_access h.pr_type)))
spc_access_check_lem env h v d =
    access_check_known sbc_pr_conflict_bits env h d
    ∙ ap some (by_role (holds (registration_of env) h))
  where
    by_role :
        (b : Bool)
        → (if b
            then false
            else conflict_of
                (sbc_pr_conflict_bits (byte env.cmd.scb 0))
                h.pr_type
                (is_there (registration_of env)))
          ≡ (not (
                b
                || (is_there (registration_of env)
                    && not (
                        is_one_of h.pr_type
                          (Codes.pr_type_write_exclusive ∷ Codes.pr_type_exclusive_access ∷ []))))
              && (is_one_of (byte env.cmd.scb 0) barred_by_all
                  || (is_one_of (byte env.cmd.scb 0) barred_by_exclusive_access
                      && is_exclusive_access h.pr_type)))
    by_role true = refl
    by_role false =
        conflict_table (byte env.cmd.scb 0) h.pr_type (is_there (registration_of env))
          (holder_read env.dev h v d).2

-- The commands that write the medium and that no write exclusive reservation stops.
abbrev pub unguarded_writes : List ℕ
unguarded_writes =
    Codes.write_verify ∷ Codes.write_verify_12 ∷ Codes.write_verify_16 ∷ Codes.orwrite_16
    ∷ Codes.write_same ∷ Codes.write_same_16 ∷ Codes.unmap ∷ []

-- WRITE AND VERIFY, ORWRITE, WRITE SAME and UNMAP pass the check from every nexus, registered or
-- not, while a reservation of a write exclusive type is held on a valid logical unit.
pub unguarded_writes-pass :
    (env : Env) (h : Registration)
    → IsValid env.dev
    → deref_holder env.dev ≡ some (some h)
    → is_exclusive_access h.pr_type ≡ false
    → is_one_of (byte env.cmd.scb 0) unguarded_writes ≡ true
    → spc_access_check sbc_pr_conflict_bits env ≡ some false
unguarded_writes-pass env h v d shared op =
    spc_access_check_lem env h v d ∙ rw (shared, not_barred (byte env.cmd.scb 0) op) (ground arith)
  where
    not_barred : (c : ℕ) → is_one_of c unguarded_writes ≡ true → is_one_of c barred_by_all ≡ false
    not_barred c p = ground arith
