-- ===== src/Target/Progress.antt =====
-- The command queue of usr/target.c makes progress: its counter is right, and a command that waits
-- waits for one that runs.
use tgt.Base.{
  ℕ, ◌+◌, ◌<◌, Bool, true, false, ◌||◌, ◌≡◌, refl, inl, inr, some, List, [], ◌∷◌, arith, length,
  ◌==◌, if◌then◌else◌, Bool-cases, some_injective,
}
use tgt.Target.Queue.{
  Task, CmdQueue, is_barrier, classified, cmd_enabled, perform, target_cmd_perform, post_cmd_done,
  find_task, remove_task, account_done, cmd_done, Step, submits, completes, Reach, starts, then_,
}

has_barrier : List Task → Bool
has_barrier [] = false
has_barrier (t ∷ rest) = is_barrier t || has_barrier rest

-- The counter counts, and a blocked queue has a command that blocks it.
record IsCounted (q : CmdQueue) : Type 0 where
  counted : q.active_cmd ≡ length q.running
  barred : q.blocked ≡ true → has_barrier q.running ≡ true

pub record IsSound (q : CmdQueue) : Type 0 where
  base : IsCounted q
  waits : 0 < length q.queue → 0 < q.active_cmd

has_barrier-pos : (xs : List Task) → has_barrier xs ≡ true → 0 < length xs
unfolding has_barrier
has_barrier-pos [] h = absurd (cc)
has_barrier-pos (x ∷ xs) h = omega arith

-- A command that is refused is refused because another runs.
refused-active :
    (q : CmdQueue) (t : Task) → IsCounted q → cmd_enabled q t ≡ false → 0 < q.active_cmd
unfolding cmd_enabled
refused-active q t c e = ground (arith, has_barrier-pos q.running)

perform-IsCounted : (q : CmdQueue) (t : Task) → IsCounted q → IsCounted (perform q t)
unfolding perform has_barrier
perform-IsCounted q t c = ground arith

-- The loop leaves a sound queue.
post_cmd_done-IsSound : (q : CmdQueue) (ts : List Task) → IsCounted q → IsSound (post_cmd_done q ts)
unfolding post_cmd_done
post_cmd_done-IsSound q [] c = record {
  base = record { counted = c.counted; barred = c.barred };
  waits = λ h. elim h [ ];
}
post_cmd_done-IsSound q (t ∷ ts) c = elim (Bool-cases (cmd_enabled q t)) [
  | inl e ↦
      rw e
        (post_cmd_done-IsSound (perform q (classified t)) ts (perform-IsCounted q (classified t) c))
  | inr e ↦ rw e (record {
    base = record { counted = c.counted; barred = c.barred };
    waits = λ _. refused-active q t c e;
  })
]

submit-IsSound : (q : CmdQueue) (t : Task) → IsSound q → IsSound (target_cmd_perform q t)
unfolding target_cmd_perform
submit-IsSound q t s = elim (Bool-cases (cmd_enabled q t)) [
  | inl e ↦
      rw e (record { base = perform-IsCounted q (classified t) s.base; waits = λ _. omega arith })
  | inr e ↦ rw e (record {
    base = record { counted = s.base.counted; barred = s.base.barred };
    waits = λ _. refused-active q t s.base e;
  })
]

length-remove_task :
    (tag : ℕ) (xs : List Task) (t : Task)
    → find_task tag xs ≡ some t
    → length xs ≡ length (remove_task tag xs) + 1
unfolding find_task remove_task
length-remove_task tag [] t e = absurd (cc)
length-remove_task tag (x ∷ xs) t e = ground (arith, length-remove_task tag xs t)

-- A barrier that is not the command that is done is still there.
has_barrier-remove_task :
    (tag : ℕ) (xs : List Task) (t : Task)
    → find_task tag xs ≡ some t
    → is_barrier t ≡ false
    → has_barrier xs ≡ true
    → has_barrier (remove_task tag xs) ≡ true
unfolding find_task remove_task has_barrier
has_barrier-remove_task tag [] t e n h = absurd (cc)
has_barrier-remove_task tag (x ∷ xs) t e n h = elim (Bool-cases (x.tag == tag)) [
  | inl p ↦ let same : x ≡ t = some_injective (rw p at e) in rw p (ground arith)
  | inr p ↦ rw p (ground (arith, has_barrier-remove_task tag xs t (rw p at e) n))
]

done-IsCounted :
    (q : CmdQueue) (t : Task)
    → find_task t.tag q.running ≡ some t
    → IsCounted q
    → IsCounted (record (account_done q t) { running = remove_task t.tag q.running })
unfolding account_done
done-IsCounted q t e c = record {
  counted = omega (arith, length-remove_task t.tag q.running t e);
  barred = by_kind (is_barrier t) refl;
}
  where
    by_kind :
        (b : Bool)
        → is_barrier t ≡ b
        → (if b then false else q.blocked) ≡ true
        → has_barrier (remove_task t.tag q.running) ≡ true
    by_kind true k h = absurd (cc)
    by_kind false k h = has_barrier-remove_task t.tag q.running t e k (c.barred h)

Step-IsSound : {q r : CmdQueue} → Step q r → IsSound q → IsSound r
unfolding cmd_done
Step-IsSound {q} (submits t) s = submit-IsSound q t s
Step-IsSound {q} (completes t e) s =
    post_cmd_done-IsSound (record (account_done q t) { running = remove_task t.tag q.running })
      q.queue (done-IsCounted q t e s.base)

-- After any sequence of submissions and completions the counter is the number of commands that
-- run, and where a command waits at least one runs.
pub Reach-IsSound :
    {q : CmdQueue}
    → Reach q
    → (q.active_cmd ≡ length q.running) × (0 < length q.queue → 0 < length q.running)
Reach-IsSound {q} r =
    let s = sound r in (s.base.counted, λ h. omega (arith, s.waits h, s.base.counted))
  where
    sound : {p : CmdQueue} → Reach p → IsSound p
    sound starts = record {
      base = record { counted = refl; barred = λ e. absurd (cc) };
      waits = λ h. h;
    }
    sound (then_ r st) = Step-IsSound st (sound r)
