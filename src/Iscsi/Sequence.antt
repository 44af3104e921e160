-- ===== src/Iscsi/Sequence.antt =====
-- The order of commands in an iSCSI session: `iscsi_task_queue` of usr/iscsi/iscsid.c, with
-- `before` of usr/util.h. Command numbers are 32 bits wide and wrap.
--
-- `executed` lists what was handed to `iscsi_task_execute`, the last first.
use tgt.Base.{ℕ, ◌+◌, ◌-◌, ◌^◌, Bool, true, false, List, [], ◌∷◌, leb, u32, ◌==◌, if◌then◌else◌}

-- What the queue reads of a task: its command number and ISCSI_OP_IMMEDIATE.
pub record IscsiTask : Type 0 where
  pub tag : ℕ
  pub cmd_sn : ℕ
  pub immediate : Bool

pub record Session : Type 0 where
  pub exp_cmd_sn : ℕ
  pub pending_cmd_list : List IscsiTask
  pub executed : List IscsiTask

-- (int32_t)(seq1 - seq2) < 0
abbrev pub before : ℕ → ℕ → Bool
before seq1 seq2 = leb (2 ^ 31) (u32 (seq1 + 2 ^ 32 - seq2))

-- Executes `task`, and then the waiting tasks as long as the first of them is the next one.
unfoldable pub run_from : Session → IscsiTask → List IscsiTask → Session
run_from s task [] = record s {
  exp_cmd_sn = u32 (task.cmd_sn + 1);
  pending_cmd_list = [];
  executed = task ∷ s.executed;
}
run_from s task (next ∷ rest) =
    let more = run_from (record s { executed = task ∷ s.executed }) next rest in
    if next.cmd_sn == u32 (task.cmd_sn + 1) then more else record s {
      exp_cmd_sn = u32 (task.cmd_sn + 1);
      pending_cmd_list = next ∷ rest;
      executed = task ∷ s.executed;
    }

-- `list_add_tail` before the first waiting task that `task` comes before.
unfoldable pub insert_task : IscsiTask → List IscsiTask → List IscsiTask
insert_task task [] = task ∷ []
insert_task task (ent ∷ rest) =
    if before task.cmd_sn ent.cmd_sn then task ∷ ent ∷ rest else ent ∷ insert_task task rest

-- The Boolean is whether the task was taken; `false` is -EINVAL.
unfoldable pub iscsi_task_queue : IscsiTask → Session → Session × Bool
unfolding run_from insert_task
iscsi_task_queue task s =
    if task.immediate
    then (record s { executed = task ∷ s.executed }, true)
    else if task.cmd_sn == s.exp_cmd_sn
    then (run_from s task s.pending_cmd_list, true)
    else if before task.cmd_sn s.exp_cmd_sn
    then (s, false)
    else (record s { pending_cmd_list = insert_task task s.pending_cmd_list }, true)
