-- ===== src/Iscsi/Wedge.antt =====
-- A command number that comes twice in a session of usr/iscsi/iscsid.c.
use tgt.Base.{◌≡◌, List, [], ◌∷◌, if◌then◌else◌}
use mathlib.Core.List.{Mem}
use mathlib.Core.List.Perm
use tgt.Iscsi.Sequence.{IscsiTask, Session, iscsi_task_queue}

-- Tasks that come one after the other, the first of the list first.
abbrev pub queue_all : List IscsiTask → Session → Session
queue_all [] s = s
queue_all (t ∷ ts) s = queue_all ts (iscsi_task_queue t s).0

-- The tasks that are not immediate.
abbrev pub commands : List IscsiTask → List IscsiTask
commands [] = []
commands (t ∷ ts) = if t.immediate then commands ts else t ∷ commands ts

-- A task that does not have the number that is due runs no command.
record Stays (waiting : IscsiTask) (s s' : Session) : Type 0 where
  due : s'.exp_cmd_sn ≡ s.exp_cmd_sn
  waits : Mem waiting s'.pending_cmd_list
  ran : commands s'.executed ≡ commands s.executed
