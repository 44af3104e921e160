-- ===== src/Spc/Reached.antt =====
-- The logical units that PERSISTENT RESERVE commands of usr/spc.c lead to.
use tgt.Base.{
  ℕ, Bool, true, ◌≡◌, refl, ◌≢◌, inl, inr, Option, none, some, [], ◌∷◌, ◌==◌, subst, sym,
  Bool-cases, All, List, ==_iff,
}
use tgt.Scsi.Codes
use tgt.Scsi.Lu.{Registration, ScsiLu, Env, Outcome}
use tgt.Spc.Registration.{is_pr_type, cdb_scope, cdb_type, deref_holder}
use tgt.Spc.Move.{Transportid}
use tgt.Spc.Access.{spc_access_check}
use tgt.Spc.In.{is_short, spc_pr_read_keys, spc_pr_read_reservation, spc_pr_report_capabilities}
use tgt.Spc.Actions.{
  ServiceAction, cdb_action, find_service_action, spc_service_action, persistent_reserve_in_actions,
  persistent_reserve_out_actions,
}
use tgt.Spc.Invariant.{
  IsValid, IsSafe, HolderIsSound, holder_known, sense-IsSafe, spc_pr_reserve-IsSafe,
  spc_pr_release-IsSafe, spc_pr_clear-IsSafe,
}
use tgt.Spc.Store.{Apart, Elsewhere, OtherNexus}
use tgt.Spc.SafeRegister.{IsFresh, IsQueued, spc_pr_register-IsSafe}
use tgt.Spc.SafePreempt.{SparesHolder, spc_pr_preempt-IsSafe}

-- What is asked of a PERSISTENT RESERVE OUT command: the address that a registration would get is
-- not in use and the initiator's nexus is there; no REGISTER AND MOVE; and of PREEMPT a valid type
-- and scope, and that it does not name the key of the holder of an all-registrants reservation.
pub record Admissible (alloc : Option ℕ) (env : Env) : Type 0 where
  pub fresh : IsFresh alloc env.dev.registration_list
  pub queued : IsQueued env
  pub not_move : cdb_action env ≢ Codes.pr_out_register_and_move
  pub preempts :
      cdb_action env ≡ Codes.pr_out_preempt
      → (is_pr_type (cdb_type env.cmd) ≡ true)
        × (cdb_scope env.cmd ≡ Codes.pr_lu_scope)
        × ((h : Registration) → deref_holder env.dev ≡ some (some h) → SparesHolder env h)

-- A command with service actions is safe if each action of the table is.
service-IsSafe :
    (actions : List ServiceAction) (env : Env)
    → All (λ s. s.0 ≡ cdb_action env → IsSafe (s.1 env)) actions
    → IsValid env.dev
    → IsSafe (spc_service_action actions env)
unfolding spc_service_action find_service_action
service-IsSafe [] env h v = sense-IsSafe _ _ env v
service-IsSafe ((n, f) ∷ actions) env h v = elim (Bool-cases (n == cdb_action env)) [
  | inl e ↦
      rw (e, IsSafe, spc_service_action, find_service_action)
        (h.0 ((==_iff n (cdb_action env)).0 e))
  | inr e ↦
      rw (e, IsSafe, spc_service_action, find_service_action) (service-IsSafe actions env h.1 v)
]

persistent_reserve_out-IsSafe :
    (alloc : Option ℕ) (transportid : Transportid) (env : Env)
    → Admissible alloc env
    → IsValid env.dev
    → IsSafe (spc_service_action (persistent_reserve_out_actions alloc transportid) env)
persistent_reserve_out-IsSafe alloc transportid env a v =
    service-IsSafe (persistent_reserve_out_actions alloc transportid) env
      (
        λ e. spc_pr_register-IsSafe alloc env a.fresh a.queued v,
        (
          λ e. spc_pr_reserve-IsSafe env v,
          (
            λ e. spc_pr_release-IsSafe env v,
            (
              λ e. spc_pr_clear-IsSafe env v,
              (
                λ e.
                    let (typed, scoped, spared) = a.preempts (sym e) in
                    spc_pr_preempt-IsSafe env typed scoped spared v,
                (
                  λ e. spc_pr_register-IsSafe alloc env a.fresh a.queued v,
                  (λ e. absurd (a.not_move (sym e)), tt),
                ),
              ),
            ),
          ),
        ),
      )
      v

spc_pr_read_keys-IsSafe : (env : Env) → IsValid env.dev → IsSafe (spc_pr_read_keys env)
unfolding spc_pr_read_keys
spc_pr_read_keys-IsSafe env v = elim (Bool-cases (is_short env)) [
  | inl e ↦ rw (e, IsSafe) (sense-IsSafe _ _ env v)
  | inr e ↦ rw (e, IsSafe) v
]

spc_pr_read_reservation-IsSafe :
    (env : Env) → IsValid env.dev → IsSafe (spc_pr_read_reservation env)
unfolding spc_pr_read_reservation
spc_pr_read_reservation-IsSafe env v = elim (Bool-cases (is_short env)) [
  | inl e ↦ rw (e, IsSafe) (sense-IsSafe _ _ env v)
  | inr e ↦ let (h, d) = holder_known env.dev v in rw (e, IsSafe) (rw d v)
]

spc_pr_report_capabilities-IsSafe :
    (env : Env) → IsValid env.dev → IsSafe (spc_pr_report_capabilities env)
unfolding spc_pr_report_capabilities
spc_pr_report_capabilities-IsSafe env v = elim (Bool-cases (is_short env)) [
  | inl e ↦ rw (e, IsSafe) (sense-IsSafe _ _ env v)
  | inr e ↦ rw (e, IsSafe) v
]

-- The three actions of PERSISTENT RESERVE IN only read.
persistent_reserve_in-IsSafe :
    (env : Env) → IsValid env.dev → IsSafe (spc_service_action persistent_reserve_in_actions env)
persistent_reserve_in-IsSafe env v =
    service-IsSafe persistent_reserve_in_actions env
      (
        λ e. spc_pr_read_keys-IsSafe env v,
        (
          λ e. spc_pr_read_reservation-IsSafe env v,
          (λ e. spc_pr_report_capabilities-IsSafe env v, tt),
        ),
      )
      v

-- The logical units that commands lead to from one without registrations and reservation.
pub data Reached : ScsiLu → Type 0 where
  created : (lu : ScsiLu) → lu.registration_list ≡ [] → lu.pr_holder ≡ none → Reached lu
  reserved_out :
      (alloc : Option ℕ) (transportid : Transportid) (env after : Env) (status : ℕ)
      → Reached env.dev
      → Admissible alloc env
      → spc_service_action (persistent_reserve_out_actions alloc transportid) env
        ≡ some (status, after)
      → Reached after.dev
  reserved_in :
      (env after : Env) (status : ℕ)
      → Reached env.dev
      → spc_service_action persistent_reserve_in_actions env ≡ some (status, after)
      → Reached after.dev

returns : (r : Outcome) → IsSafe r → (status : ℕ) × (after : Env) × (r ≡ some (status, after))
returns none safe = absurd safe
returns (some (status, after)) safe = (status, after, refl)

step-IsValid :
    (status : ℕ) (after : Env) (r : Outcome)
    → IsSafe r
    → r ≡ some (status, after)
    → IsValid after.dev
step-IsValid status after r safe e = subst IsSafe e safe

created-IsValid : (lu : ScsiLu) → lu.registration_list ≡ [] → lu.pr_holder ≡ none → IsValid lu
created-IsValid lu empty null = record {
  distinct = subst (Apart Elsewhere) (sym empty) tt;
  one_per_nexus = subst (Apart OtherNexus) (sym empty) tt;
  keyed = subst (All (λ r. r.key ≢ 0)) (sym empty) tt;
  holder = subst (λ p. HolderIsSound p lu.registration_list) (sym null) tt;
}

Reached-IsValid : (lu : ScsiLu) → Reached lu → IsValid lu
Reached-IsValid lu (created _ empty null) = created-IsValid lu empty null
Reached-IsValid lu (reserved_out alloc transportid env after status past a e) =
    step-IsValid status after _
      (persistent_reserve_out-IsSafe alloc transportid env a (Reached-IsValid env.dev past)) e
Reached-IsValid lu (reserved_in env after status past e) =
    step-IsValid status after _ (persistent_reserve_in-IsSafe env (Reached-IsValid env.dev past)) e

spc_access_check_returns :
    (ops : ℕ → ℕ) (env : Env)
    → IsValid env.dev
    → (conflict : Bool) × (spc_access_check ops env ≡ some conflict)
unfolding spc_access_check
spc_access_check_returns ops env v =
    let (holder, d) = holder_known env.dev v in
    elim holder
        as (λ h.
          deref_holder env.dev ≡ some h
          → (conflict : Bool) × (spc_access_check ops env ≡ some conflict)) [
            | none ↦ λ d. rw (d, spc_access_check) (_, refl)
            | some h ↦ λ d. rw (d, spc_access_check) (_, refl)
          ]
      d

-- After any sequence of admissible PERSISTENT RESERVE IN and OUT commands to a logical unit that
-- began without registrations, the list of registrations and the holder are valid, a further such
-- command and the access check of any command follow no stale pointer, and each of them returns.
pub Reached-answers :
    (alloc : Option ℕ) (transportid : Transportid) (ops : ℕ → ℕ) (env : Env)
    → Reached env.dev
    → Admissible alloc env
    → IsValid env.dev
      × ((status : ℕ) × (after : Env) × (spc_service_action
              (persistent_reserve_out_actions alloc transportid)
              env
            ≡ some (status, after)))
      × ((status : ℕ) × (after : Env) × (spc_service_action persistent_reserve_in_actions env
            ≡ some (status, after)))
      × ((conflict : Bool) × (spc_access_check ops env ≡ some conflict))
Reached-answers alloc transportid ops env past a =
    let v = Reached-IsValid env.dev past in
    (
      v,
      returns _ (persistent_reserve_out-IsSafe alloc transportid env a v),
      returns _ (persistent_reserve_in-IsSafe env v),
      spc_access_check_returns ops env v,
    )
