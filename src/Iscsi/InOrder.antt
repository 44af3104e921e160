-- ===== src/Iscsi/InOrder.antt =====
-- The commands of a session of usr/iscsi/iscsid.c are executed in the order of their numbers.
use tgt.Base.{
  ℕ, ◌+◌, ◌-◌, ◌^◌, ◌≡◌, ◌≢◌, ◌<◌, refl, subst, sym, inl, inr, true, false, List, [], ◌∷◌, ◌++◌,
  arith, u32, ◌==◌, ==_iff, if◌then◌else◌, All, Bool-cases,
}
use mathlib.Core.List.{Perm, perm_middle}
use mathlib.Core.List.Perm
use tgt.Iscsi.Sequence.{IscsiTask, Session, before, run_from, insert_task, iscsi_task_queue}

-- How far a number is ahead of `e`, on the circle of 2 ^ 32 numbers.
abbrev pub ahead : ℕ → ℕ → ℕ
ahead sn e = u32 (sn + 2 ^ 32 - e)

-- The waiting tasks, as seen from `e`: in ascending order, each more than `low` and less than half
-- the circle ahead.
abbrev pub Ascending : ℕ → ℕ → List IscsiTask → Type 0
Ascending e low [] = Unit
Ascending e low (t ∷ ts) =
    (low < ahead t.cmd_sn e)
    × (ahead t.cmd_sn e < 2 ^ 31)
    × (t.cmd_sn < 2 ^ 32)
    × (t.immediate ≡ false)
    × Ascending e (ahead t.cmd_sn e) ts

-- The numbers of what was executed, immediate tasks aside, go up by one from `start` to `e`.
abbrev pub Numbered : ℕ → ℕ → List IscsiTask → Type 0
Numbered start e [] = e ≡ start
Numbered start e (t ∷ ts) =
    if t.immediate
    then Numbered start e ts
    else (e ≡ u32 (t.cmd_sn + 1)) × Numbered start t.cmd_sn ts

insert_task-Ascending :
    (t : IscsiTask) (e low : ℕ) (xs : List IscsiTask)
    → e < 2 ^ 32
    → t.cmd_sn < 2 ^ 32
    → t.immediate ≡ false
    → low < ahead t.cmd_sn e
    → ahead t.cmd_sn e < 2 ^ 31
    → All (λ p. p.cmd_sn ≢ t.cmd_sn) xs
    → Ascending e low xs
    → Ascending e low (insert_task t xs)
unfolding insert_task
insert_task-Ascending t e low [] he ht ti l h new s = (l, h, ht, ti, tt)
insert_task-Ascending t e low (x ∷ xs) he ht ti l h new s =
    elim (Bool-cases (before t.cmd_sn x.cmd_sn)) [
      | inl first ↦ rw first (l, h, ht, ti, (ground arith, s.1, s.2, s.3, s.4))
      | inr later ↦ rw later (
        s.0,
        s.1,
        s.2,
        s.3,
        insert_task-Ascending t e (ahead x.cmd_sn e) xs he ht ti (ground arith) h new.1 s.4,
      )
    ]

shift-Ascending :
    (e low : ℕ) (xs : List IscsiTask)
    → e < 2 ^ 32
    → Ascending e (low + 1) xs
    → Ascending (u32 (e + 1)) low xs
shift-Ascending e low [] he s = tt
shift-Ascending e low (x ∷ xs) he s = (
  omega arith,
  omega arith,
  s.2,
  s.3,
  shift-Ascending e (ahead x.cmd_sn (u32 (e + 1))) xs he again,
)
  where
    again : Ascending e (ahead x.cmd_sn (u32 (e + 1)) + 1) xs
    again =
        let same : ahead x.cmd_sn e ≡ ahead x.cmd_sn (u32 (e + 1)) + 1 = omega arith in
        rw (← same) s.4

-- A session from `start` on to which `came` have come, the last first.
pub record IsOrdered (start : ℕ) (came : List IscsiTask) (s : Session) : Type 0 where
  pub small : s.exp_cmd_sn < 2 ^ 32
  pub numbered : Numbered start s.exp_cmd_sn s.executed
  pub ascending : Ascending s.exp_cmd_sn 0 s.pending_cmd_list
  pub kept : Perm (s.executed ++ s.pending_cmd_list) came

reordered :
    (start : ℕ) (s : Session) (came came' : List IscsiTask)
    → Perm came came'
    → IsOrdered start came s
    → IsOrdered start came' s
reordered start s came came' p o = record {
  small = o.small;
  numbered = o.numbered;
  ascending = o.ascending;
  kept = Perm.trans o.kept p;
}

run_from-IsOrdered :
    (start : ℕ) (s : Session) (task : IscsiTask) (xs : List IscsiTask)
    → task.cmd_sn < 2 ^ 32
    → task.immediate ≡ false
    → Numbered start task.cmd_sn s.executed
    → Ascending task.cmd_sn 0 xs
    → IsOrdered start (task ∷ (s.executed ++ xs)) (run_from s task xs)
unfolding run_from
run_from-IsOrdered start s task [] small now num asc = record {
  small = omega arith;
  numbered = rw now (refl, num);
  ascending = tt;
  kept = Perm.refl (task ∷ (s.executed ++ []));
}
run_from-IsOrdered start s task (next ∷ rest) small now num asc =
    elim (Bool-cases (next.cmd_sn == u32 (task.cmd_sn + 1))) [
      | inl e ↦
          let e' : next.cmd_sn ≡ u32 (task.cmd_sn + 1) = (==_iff _ _).0 e in
          let one : ahead next.cmd_sn task.cmd_sn ≡ 1 = omega (arith, e') in
          let moved : Ascending (u32 (task.cmd_sn + 1)) 0 rest =
            shift-Ascending task.cmd_sn 0 rest small
              (subst (λ k. Ascending task.cmd_sn k rest) one asc.4) in
          rw e (
            reordered start _ _ _ (Perm.symm (perm_middle (task ∷ s.executed) rest)) (
              run_from-IsOrdered start (record s { executed = task ∷ s.executed }) next rest asc.2
                asc.3 (rw now (e', num)) (subst (λ k. Ascending k 0 rest) (sym e') moved)))
      | inr e ↦ rw e (record {
        small = omega arith;
        numbered = rw now (refl, num);
        ascending =
            shift-Ascending task.cmd_sn 0 (next ∷ rest) small
              (ground arith, asc.1, asc.2, asc.3, asc.4);
        kept = Perm.refl (task ∷ (s.executed ++ (next ∷ rest)));
      })
    ]

-- A task whose number is new and less than half the circle ahead of the next one.
pub record IsAdmissible (t : IscsiTask) (s : Session) : Type 0 where
  pub queued : t.immediate ≡ false
  pub narrow : t.cmd_sn < 2 ^ 32
  pub window : ahead t.cmd_sn s.exp_cmd_sn < 2 ^ 31
  pub fresh : All (λ p. p.cmd_sn ≢ t.cmd_sn) s.pending_cmd_list

abbrev pub start_session : ℕ → Session
start_session start = record { exp_cmd_sn = start; pending_cmd_list = []; executed = [] }

-- The sessions after tasks, the last first, each immediate or admissible when it came.
pub data Served (start : ℕ) : List IscsiTask → Session → Type 0 where
  starts : start < 2 ^ 32 → Served start [] (start_session start)
  urgent :
      {came : List IscsiTask} {s : Session}
      → Served start came s
      → (t : IscsiTask) → t.immediate ≡ true
      → Served start (t ∷ came) (iscsi_task_queue t s).0
  comes :
      {came : List IscsiTask} {s : Session}
      → Served start came s
      → (t : IscsiTask) → IsAdmissible t s
      → Served start (t ∷ came) (iscsi_task_queue t s).0

pub queue_urgent :
    (t : IscsiTask) (s : Session)
    → t.immediate ≡ true
    → iscsi_task_queue t s ≡ (record s { executed = t ∷ s.executed }, true)
unfolding iscsi_task_queue
queue_urgent t s now = simp now

pub queue_due :
    (t : IscsiTask) (s : Session)
    → t.immediate ≡ false
    → (t.cmd_sn == s.exp_cmd_sn) ≡ true
    → iscsi_task_queue t s ≡ (run_from s t s.pending_cmd_list, true)
unfolding iscsi_task_queue
queue_due t s queued e = simp (queued, e)

pub queue_waits :
    (t : IscsiTask) (s : Session)
    → t.immediate ≡ false
    → (t.cmd_sn == s.exp_cmd_sn) ≡ false
    → before t.cmd_sn s.exp_cmd_sn ≡ false
    → iscsi_task_queue t s
      ≡ (record s { pending_cmd_list = insert_task t s.pending_cmd_list }, true)
unfolding iscsi_task_queue
queue_waits t s queued e later = simp (queued, e, later)

urgent-IsOrdered :
    (start : ℕ) (came : List IscsiTask) (s : Session) (t : IscsiTask)
    → t.immediate ≡ true
    → IsOrdered start came s
    → IsOrdered start (t ∷ came) (iscsi_task_queue t s).0
urgent-IsOrdered start came s t now o = rw (queue_urgent t s now) (record {
  small = o.small;
  numbered = ground (arith, now, o.numbered);
  ascending = o.ascending;
  kept = Perm.cons t o.kept;
})

pub insert_task-Perm : (t : IscsiTask) (xs : List IscsiTask) → Perm (insert_task t xs) (t ∷ xs)
unfolding insert_task
insert_task-Perm t [] = Perm.refl (t ∷ [])
insert_task-Perm t (x ∷ xs) = elim (Bool-cases (before t.cmd_sn x.cmd_sn)) [
  | inl first ↦ rw first (Perm.refl (t ∷ x ∷ xs))
  | inr later ↦ rw later (Perm.trans (Perm.cons x (insert_task-Perm t xs)) (Perm.swap t x xs))
]

comes-IsOrdered :
    (start : ℕ) (came : List IscsiTask) (s : Session) (t : IscsiTask)
    → IsAdmissible t s
    → IsOrdered start came s
    → IsOrdered start (t ∷ came) (iscsi_task_queue t s).0
comes-IsOrdered start came s t a o = elim (Bool-cases (t.cmd_sn == s.exp_cmd_sn)) [
  | inl e ↦
      let e' : t.cmd_sn ≡ s.exp_cmd_sn = (==_iff _ _).0 e in
      rw (queue_due t s a.queued e) (
        reordered start _ _ _ (Perm.cons t o.kept) (
          run_from-IsOrdered start s t s.pending_cmd_list a.narrow a.queued
            (subst (λ k. Numbered start k s.executed) (sym e') o.numbered)
            (subst (λ k. Ascending k 0 s.pending_cmd_list) (sym e') o.ascending)))
  | inr e ↦ rw (queue_waits t s a.queued e (ground (arith, a.window))) (record {
    small = o.small;
    numbered = o.numbered;
    ascending =
        insert_task-Ascending t s.exp_cmd_sn 0 s.pending_cmd_list o.small a.narrow a.queued
          (ground (arith, a.narrow, o.small)) a.window a.fresh o.ascending;
    kept =
        Perm.trans (Perm.append_left s.executed (insert_task-Perm t s.pending_cmd_list))
          (Perm.trans (perm_middle s.executed s.pending_cmd_list) (Perm.cons t o.kept));
  })
]

none_due :
    (e low : ℕ) (xs : List IscsiTask) → e < 2 ^ 32 → Ascending e low xs → All (λ p. p.cmd_sn ≢ e) xs
none_due e low [] he s = tt
none_due e low (x ∷ xs) he s = (λ q. omega (arith, q, s.0), none_due e (ahead x.cmd_sn e) xs he s.4)

-- However tasks arrive, each immediate or with a new number less than 2 ^ 31 ahead: the numbers of
-- what was executed, immediate tasks aside, go up by one from the start, modulo 2 ^ 32, to the next
-- one; no task that waits has that next number; and the tasks that were executed, with those that
-- wait, are the tasks that came, each as often as it came.
pub Served-InOrder :
    {start : ℕ} {came : List IscsiTask} {s : Session}
    → Served start came s
    → Numbered start s.exp_cmd_sn s.executed
      × All (λ p. p.cmd_sn ≢ s.exp_cmd_sn) s.pending_cmd_list
      × Perm (s.executed ++ s.pending_cmd_list) came
Served-InOrder {start} {came} {s} r =
    let o = ordered r in
    (o.numbered, none_due s.exp_cmd_sn 0 s.pending_cmd_list o.small o.ascending, o.kept)
  where
    ordered : {ts : List IscsiTask} {q : Session} → Served start ts q → IsOrdered start ts q
    ordered (starts h) = record { small = h; numbered = refl; ascending = tt; kept = Perm.nil }
    ordered (urgent {came = ts} {s = q} r t now) = urgent-IsOrdered start ts q t now (ordered r)
    ordered (comes {came = ts} {s = q} r t a) = comes-IsOrdered start ts q t a (ordered r)
