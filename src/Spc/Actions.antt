-- ===== src/Spc/Actions.antt =====
-- The commands with service actions, usr/spc.c: the tables of PERSISTENT RESERVE IN and OUT.
--
-- `alloc` is what `zalloc` returns to `spc_pr_register`, and `transportid` the transport's name of a
-- nexus, which REGISTER AND MOVE compares. A table ends where the code's has a null function.
use tgt.Base.{ℕ, Option, none, some, List, [], ◌∷◌, ◌%◌, ◌^◌, ◌==◌, if◌then◌else◌, byte}
use tgt.Scsi.Codes
use tgt.Scsi.Lu.{Env, Outcome, sense}
use tgt.Spc.Register.{spc_pr_register}
use tgt.Spc.Reserve.{spc_pr_reserve, spc_pr_release}
use tgt.Spc.Preempt.{spc_pr_clear, spc_pr_preempt}
use tgt.Spc.Move.{Transportid, spc_pr_register_and_move}
use tgt.Spc.In.{spc_pr_read_keys, spc_pr_read_reservation, spc_pr_report_capabilities}

-- `struct service_action`.
abbrev pub ServiceAction : Type 0
ServiceAction = ℕ × (Env → Outcome)

unfoldable pub find_service_action : List ServiceAction → ℕ → Option (Env → Outcome)
find_service_action [] action = none
find_service_action ((service_action, cmd_perform) ∷ rest) action =
    if service_action == action then some cmd_perform else find_service_action rest action

abbrev pub cdb_action : Env → ℕ
cdb_action env = byte env.cmd.scb 1 % 2 ^ 5

unfoldable pub spc_service_action : List ServiceAction → Env → Outcome
spc_service_action actions env = elim (find_service_action actions (cdb_action env)) [
  | none ↦ sense Codes.illegal_request Codes.asc_invalid_field_in_cdb env
  | some cmd_perform ↦ cmd_perform env
]

abbrev pub persistent_reserve_in_actions : List ServiceAction
persistent_reserve_in_actions =
    (Codes.pr_in_read_keys, spc_pr_read_keys)
    ∷ (Codes.pr_in_read_reservation, spc_pr_read_reservation)
    ∷ (Codes.pr_in_report_capabilities, spc_pr_report_capabilities)
    ∷ []

abbrev pub persistent_reserve_out_actions : Option ℕ → Transportid → List ServiceAction
persistent_reserve_out_actions alloc transportid =
    (Codes.pr_out_register, spc_pr_register alloc)
    ∷ (Codes.pr_out_reserve, spc_pr_reserve)
    ∷ (Codes.pr_out_release, spc_pr_release)
    ∷ (Codes.pr_out_clear, spc_pr_clear)
    ∷ (Codes.pr_out_preempt, spc_pr_preempt)
    ∷ (Codes.pr_out_register_and_ignore_existing_key, spc_pr_register alloc)
    ∷ (Codes.pr_out_register_and_move, spc_pr_register_and_move transportid)
    ∷ []
