-- ===== src/Target/Queue.antt =====
-- The command queue of a logical unit (usr/target.c): `cmd_enabled`, `cmd_post_perform`, and the
-- parts of `target_cmd_perform`, `post_cmd_done`, `__cmd_done` and `abort_cmd` that act on it.
--
-- `running` lists the commands that were performed and are not done: those of the nexuses'
-- `cmd_list` that are processed. `active_cmd` is an int that the invariant keeps from going below 0.
use tgt.Base.{
  ℕ, ◌+◌, ◌-◌, Bool, true, false, not, ◌&&◌, ◌≡◌, Option, none, some, List, [], ◌∷◌, ◌++◌, ◌==◌,
  is_one_of, if◌then◌else◌,
}
use tgt.Scsi.Codes

-- What the queue reads of a command.
pub record Task : Type 0 where
  pub tag : ℕ
  pub attribute : ℕ

pub record CmdQueue : Type 0 where
  pub active_cmd : ℕ
  pub blocked : Bool
  pub queue : List Task
  pub running : List Task

-- Ordered and head-of-queue commands, which block the queue while they run.
abbrev pub is_barrier : Task → Bool
is_barrier t = is_one_of t.attribute (Codes.msg_ordered_tag ∷ Codes.msg_head_tag ∷ [])

-- `cmd_enabled` treats an unknown attribute as ordered from then on.
unfoldable pub classified : Task → Task
classified t =
    if is_one_of t.attribute
      (Codes.msg_simple_tag ∷ Codes.msg_ordered_tag ∷ Codes.msg_head_tag ∷ [])
    then t
    else record t { attribute = Codes.msg_ordered_tag }

unfoldable pub cmd_enabled : CmdQueue → Task → Bool
cmd_enabled q t =
    if t.attribute == Codes.msg_simple_tag
    then not q.blocked
    else if t.attribute == Codes.msg_ordered_tag
    then not q.blocked && (q.active_cmd == 0)
    else if t.attribute == Codes.msg_head_tag
    then true
    else not q.blocked && (q.active_cmd == 0)

-- `scsi_cmd_perform` and `cmd_post_perform`.
unfoldable pub perform : CmdQueue → Task → CmdQueue
perform q t = record q {
  active_cmd = q.active_cmd + 1;
  blocked = if is_barrier t then true else q.blocked;
  running = t ∷ q.running;
}

unfoldable pub target_cmd_perform : CmdQueue → Task → CmdQueue
unfolding cmd_enabled perform classified
target_cmd_perform q t =
    if cmd_enabled q t
    then perform q (classified t)
    else record q { queue = q.queue ++ classified t ∷ [] }

-- The loop over the waiting commands, up to the first that is not enabled.
unfoldable pub post_cmd_done : CmdQueue → List Task → CmdQueue
post_cmd_done q [] = record q { queue = [] }
post_cmd_done q (t ∷ rest) =
    let more = post_cmd_done (perform q (classified t)) rest in
    if cmd_enabled q t then more else record q { queue = classified t ∷ rest }

unfoldable pub find_task : ℕ → List Task → Option Task
find_task tag [] = none
find_task tag (t ∷ rest) = if t.tag == tag then some t else find_task tag rest

unfoldable pub remove_task : ℕ → List Task → List Task
remove_task tag [] = []
remove_task tag (t ∷ rest) = if t.tag == tag then rest else t ∷ remove_task tag rest

-- The counter and the flag, before the queue is looked at.
unfoldable pub account_done : CmdQueue → Task → CmdQueue
account_done q t = record q {
  active_cmd = q.active_cmd - 1;
  blocked = if is_barrier t then false else q.blocked;
}

-- `__cmd_done`, of a command that runs.
unfoldable pub cmd_done : CmdQueue → Task → CmdQueue
unfolding account_done post_cmd_done remove_task
cmd_done q t =
    post_cmd_done (record (account_done q t) { running = remove_task t.tag q.running }) q.queue

-- `abort_cmd` of a command that still waits: it also goes through `__cmd_done`, and nothing takes
-- it off the queue.
unfoldable pub abort_waiting : CmdQueue → Task → CmdQueue
unfolding account_done post_cmd_done
abort_waiting q t = post_cmd_done (account_done q t) q.queue

-- What can happen to the queue, aborts of waiting commands aside.
pub data Step (q : CmdQueue) : CmdQueue → Type 0 where
  submits : (t : Task) → Step q (target_cmd_perform q t)
  completes : (t : Task) → find_task t.tag q.running ≡ some t → Step q (cmd_done q t)

-- `tgt_cmd_queue_init`
abbrev pub empty_queue : CmdQueue
empty_queue = record { active_cmd = 0; blocked = false; queue = []; running = [] }

pub data Reach : CmdQueue → Type 0 where
  starts : Reach empty_queue
  then_ : {q r : CmdQueue} → Reach q → Step q r → Reach r
