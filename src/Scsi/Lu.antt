-- ===== src/Scsi/Lu.antt =====
-- `struct scsi_lu` with the attributes and the persistent reservation that the handlers read
-- (usr/tgtd.h), and the environment in which a handler of a command runs.
--
-- A registration is a heap object: `addr` is its address, and `registration_list` is also the store
-- of the registrations that are allocated, since each is freed when it is taken off the list.
use tgt.Base.{ℕ, Bool, Option, none, some, List, [], ◌∷◌, ◌==◌, if◌then◌else◌}
use tgt.Scsi.Cmd.{ScsiCmd, set_in_resid_by_actual, sense_data_build}
use tgt.Scsi.Codes
use tgt.Target.Nexus.{ItNexus}

pub record Registration : Type 0 where
  pub addr : ℕ
  pub key : ℕ
  pub nexus_id : ℕ
  pub ctime : ℕ
  pub pr_scope : ℕ
  pub pr_type : ℕ

pub record ScsiLu : Type 0 where
  pub lun : ℕ
  pub size : ℕ
  pub blk_shift : ℕ
  pub reserve_id : ℕ
  pub removable : Bool
  pub online : Bool
  pub readonly : Bool
  pub swp : Bool
  pub thinprovisioning : Bool
  pub sense_format : Bool
  pub registration_list : List Registration
  pub prgeneration : ℕ
  pub pr_holder : Option ℕ

-- `cmd`, `cmd->dev` and the `it_nexus_list` of the device's target.
pub record Env : Type 0 where
  pub cmd : ScsiCmd
  pub dev : ScsiLu
  pub it_nexus_list : List ItNexus

-- A handler returns its status and the new environment; `none` is a read or write through a null
-- pointer or of freed memory.
abbrev pub Outcome : Type 0
Outcome = Option (ℕ × Env)

-- The label `sense:` of a handler.
unfoldable pub sense : ℕ → ℕ → Env → Outcome
sense key asc env = some (
  Codes.sam_stat_check_condition,
  record env {
    cmd = sense_data_build env.dev.sense_format (set_in_resid_by_actual env.cmd 0) key asc;
  },
)

-- The object at an address, if it is allocated.
unfoldable pub deref : List Registration → ℕ → Option Registration
deref [] a = none
deref (r ∷ rest) a = if r.addr == a then some r else deref rest a

-- A write to the object at an address.
unfoldable pub modify : ℕ → (Registration → Registration) → List Registration → List Registration
modify a f [] = []
modify a f (r ∷ rest) = if r.addr == a then f r ∷ rest else r ∷ modify a f rest

-- `list_del` and `free`.
unfoldable pub unregister : ℕ → List Registration → List Registration
unregister a [] = []
unregister a (r ∷ rest) = if r.addr == a then rest else r ∷ unregister a rest
