-- ===== src/Tests/Target.antt =====
-- The command queue at concrete commands.
use tgt.Base.{◌<◌, true, false, ◌≡◌, refl, List, [], ◌∷◌, ◌++◌, map, arith, length}
use mathlib.Core.List.{reverse}
use tgt.Scsi.Codes
use tgt.Target.Queue.{
  Task, CmdQueue, classified, target_cmd_perform, cmd_done, post_cmd_done, cmd_enabled,
  abort_waiting, starts, then_, submits, empty_queue,
}
use tgt.Target.Progress.{Reach-IsSound}
use tgt.Target.Ordering.{post_cmd_done-fifo, head_unblocks, aborted_runs}

abbrev simple_1 : Task
simple_1 = record { tag = 1; attribute = Codes.msg_simple_tag }

abbrev ordered_2 : Task
ordered_2 = record { tag = 2; attribute = Codes.msg_ordered_tag }

abbrev head_3 : Task
head_3 = record { tag = 3; attribute = Codes.msg_head_tag }

abbrev ordered_runs : CmdQueue
ordered_runs = record { active_cmd = 1; blocked = true; queue = []; running = ordered_2 ∷ [] }

-- The ordered command waits for the simple one.
abbrev one_waits : CmdQueue
one_waits = target_cmd_perform (target_cmd_perform empty_queue simple_1) ordered_2

one_waits_runs : (one_waits.running ≡ simple_1 ∷ []) × (one_waits.queue ≡ ordered_2 ∷ [])
unfolding target_cmd_perform
one_waits_runs = (refl, refl)

Reach-IsSound_example :
    (one_waits.active_cmd ≡ length one_waits.running)
    × (0 < length one_waits.queue → 0 < length one_waits.running)
Reach-IsSound_example = Reach-IsSound (then_ (then_ starts (submits simple_1)) (submits ordered_2))

post_cmd_done-fifo_example :
    (go : List Task) × (stay : List Task) × (map classified (simple_1 ∷ ordered_2 ∷ [])
      ≡ go ++ map classified stay)
    × ((post_cmd_done empty_queue (simple_1 ∷ ordered_2 ∷ [])).running ≡ reverse go ++ [])
    × (map classified (post_cmd_done empty_queue (simple_1 ∷ ordered_2 ∷ [])).queue
        ≡ map classified stay)
post_cmd_done-fifo_example = post_cmd_done-fifo empty_queue (simple_1 ∷ ordered_2 ∷ [])

head_unblocks_example :
    ((target_cmd_perform ordered_runs simple_1).running ≡ ordered_2 ∷ [])
    × ((target_cmd_perform
          (cmd_done (target_cmd_perform ordered_runs head_3) head_3)
          simple_1).running
        ≡ simple_1 ∷ ordered_2 ∷ [])
head_unblocks_example =
    head_unblocks ordered_2 head_3 simple_1 refl refl refl (omega arith) ordered_runs refl refl refl

abbrev one_behind : CmdQueue
one_behind = record {
  active_cmd = 1;
  blocked = false;
  queue = ordered_2 ∷ [];
  running = simple_1 ∷ [];
}

aborted_runs_example :
    (cmd_enabled one_behind ordered_2 ≡ false)
    × ((abort_waiting one_behind ordered_2).running ≡ ordered_2 ∷ simple_1 ∷ [])
aborted_runs_example = aborted_runs simple_1 ordered_2 refl one_behind refl refl refl refl
