-- ===== src/Target/Ordering.antt =====
-- In which order the command queue of usr/target.c starts commands.
use tgt.Base.{
  true, false, ◌≡◌, ◌≢◌, refl, ap, sym, ◌∙◌, inl, inr, List, [], ◌∷◌, ◌++◌, arith, Bool-cases, map,
}
use mathlib.Core.List.{append_assoc, reverse, reverse-cons}
use tgt.Scsi.Codes
use tgt.Target.Queue.{
  Task, CmdQueue, classified, cmd_enabled, perform, target_cmd_perform, post_cmd_done, cmd_done,
  abort_waiting,
}

classified_idem : (t : Task) → classified (classified t) ≡ classified t
unfolding classified
classified_idem t = ground arith

reverse_onto {ℓ} :
    {A : Type ℓ} (x : A) (xs ys : List A) → reverse xs ++ x ∷ ys ≡ reverse (x ∷ xs) ++ ys
reverse_onto x xs ys =
    sym (ap (λ l. l ++ ys) (reverse-cons x xs) ∙ append_assoc (reverse xs) (x ∷ []) ys)

-- The scan of the waiting commands splits them: a first part is started, in order, and the rest
-- waits in the same order. Nothing is lost, doubled or overtaken.
pub post_cmd_done-fifo :
    (q : CmdQueue) (ts : List Task)
    → (go : List Task) × (stay : List Task) × (map classified ts ≡ go ++ map classified stay)
      × ((post_cmd_done q ts).running ≡ reverse go ++ q.running)
      × (map classified (post_cmd_done q ts).queue ≡ map classified stay)
unfolding post_cmd_done perform
post_cmd_done-fifo q [] = ([], [], refl, refl, refl)
post_cmd_done-fifo q (t ∷ ts) = elim (Bool-cases (cmd_enabled q t)) [
  | inl e ↦
      let (go, stay, split, ran, left) = post_cmd_done-fifo (perform q (classified t)) ts in
      (
        classified t ∷ go,
        stay,
        ap (◌∷◌ (classified t)) split,
        rw e (ran ∙ reverse_onto (classified t) go q.running),
        rw e left,
      )
  | inr e ↦
      ([], t ∷ ts, refl, rw e refl, rw e (ap (λ c. c ∷ map classified ts) (classified_idem t)))
]

-- A head-of-queue command that comes while an ordered one runs unblocks the queue when it is done:
-- a simple command that comes next is started beside the ordered one, where without the
-- head-of-queue command it would wait.
pub head_unblocks :
    (o h s : Task)
    → o.attribute ≡ Codes.msg_ordered_tag
    → h.attribute ≡ Codes.msg_head_tag
    → s.attribute ≡ Codes.msg_simple_tag
    → h.tag ≢ o.tag
    → (q : CmdQueue) → q.running ≡ o ∷ []
    → q.queue ≡ []
    → q.blocked ≡ true
    → ((target_cmd_perform q s).running ≡ o ∷ [])
      × ((target_cmd_perform (cmd_done (target_cmd_perform q h) h) s).running ≡ s ∷ o ∷ [])
unfolding target_cmd_perform cmd_done
head_unblocks o h s eo eh es ne q er eq eb = (ground arith, ground arith)

-- Aborting an ordered command that waits behind one that runs starts it: the abort counts it as
-- done, so that the scan finds the queue idle, and it is still on the queue.
pub aborted_runs :
    (r t : Task)
    → t.attribute ≡ Codes.msg_ordered_tag
    → (q : CmdQueue) → q.active_cmd ≡ 1
    → q.running ≡ r ∷ []
    → q.queue ≡ t ∷ []
    → q.blocked ≡ false
    → (cmd_enabled q t ≡ false) × ((abort_waiting q t).running ≡ t ∷ r ∷ [])
unfolding abort_waiting cmd_enabled perform classified
aborted_runs r t et q ea er eq eb = (ground arith, ground arith)
