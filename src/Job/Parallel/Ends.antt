-- ===== src/Job/Parallel/Ends.antt =====
-- How a parallel task ends, in every interleaving of its workers
-- (src/ska_pst_lmc/job/task_executor.py, `_handle_parallel_task` and
-- `_handle_parallel_subtask`).
use ska_pst_lmc.Prelude.{
  ℕ, zero, suc, ◌+◌, ◌*◌, ◌≤◌, ◌<◌, ◌≡◌, refl, ap, ◌∙◌, ◌⊎◌, inl, inr, Bool-cases, Option-cases,
  length-set, true, false, none, lt-length, All-get, some, List, [], ◌∷◌, get_elem?, set, replicate,
  length, All, if◌then◌else◌, arith,
}
use ska_pst_lmc.Job.{new_context}
use ska_pst_lmc.Job.Parallel.{
  queued, running, returned, Subtask, ParallelTaskContext, submitted, all_completed, Step, takes,
  settles, joins, Steps, here, next,
}
use ska_pst_lmc.Job.Parallel.Slots.{Blamed, Fine, all_returned}
use ska_pst_lmc.Job.Parallel.Invariant.{Inv, Steps-Inv, submitted-Inv}

module _ {E R : Type 0} where
  Step-length : {p q : ParallelTaskContext E R} → Step p q → length q.subtasks ≡ length p.subtasks
  Step-length {p} (takes i s at_i q) = length-set p.subtasks i _
  Step-length {p} (settles i s o r at_i q u) = length-set p.subtasks i _
  Step-length {p} (joins i s at_i q u) = length-set p.subtasks i _

  Steps-length :
      {p q : ParallelTaskContext E R} {k : ℕ} → Steps p k q → length q.subtasks ≡ length p.subtasks
  Steps-length here = refl
  Steps-length (next ss s) = Step-length s ∙ Steps-length ss

  Step-nonempty : {p q : ParallelTaskContext E R} → Step p q → 0 < length p.subtasks
  Step-nonempty {p} (takes i s at_i q) = omega (arith, lt-length p.subtasks i at_i)
  Step-nonempty {p} (settles i s o r at_i q u) = omega (arith, lt-length p.subtasks i at_i)
  Step-nonempty {p} (joins i s at_i q u) = omega (arith, lt-length p.subtasks i at_i)

  -- The moves that a worker has left.
  abbrev moves_left : Subtask E R → ℕ
  moves_left s = elim s.phase [
    | queued ↦ 3
    | running ↦ if s.context.evt then 1 else 2
    | returned ↦ 0
  ]

  abbrev all_moves_left : List (Subtask E R) → ℕ
  all_moves_left [] = 0
  all_moves_left (s ∷ ss) = moves_left s + all_moves_left ss

  all_moves_left-set :
      (ss : List (Subtask E R)) (i : ℕ) (s t : Subtask E R)
      → get_elem? ss i ≡ some s
      → moves_left t < moves_left s
      → all_moves_left (set ss i t) < all_moves_left ss
  all_moves_left-set [] i s t e h = cc
  all_moves_left-set (x ∷ xs) zero s t e h = let same : x ≡ s = cc in rw same (omega arith)
  all_moves_left-set (x ∷ xs) (suc i) s t e h = omega (arith, all_moves_left-set xs i s t e h)

  Step-moves :
      {p q : ParallelTaskContext E R}
      → Step p q
      → Inv p
      → all_moves_left q.subtasks < all_moves_left p.subtasks
  Step-moves {p} (takes i s at_i q) v =
      let f = All-get Fine p.subtasks i v.fine at_i in
      all_moves_left-set p.subtasks i s _ at_i (ground arith)
  Step-moves {p} (settles i s o r at_i q u) v =
      all_moves_left-set p.subtasks i s _ at_i (ground arith)
  Step-moves {p} (joins i s at_i q u) v = all_moves_left-set p.subtasks i s _ at_i (ground arith)

  Steps-moves :
      {p q : ParallelTaskContext E R} {k : ℕ}
      → Steps p k q
      → Inv p
      → k + all_moves_left q.subtasks ≤ all_moves_left p.subtasks
  Steps-moves here v = omega arith
  Steps-moves (next ss s) v = omega (arith, Steps-moves ss v, Step-moves s (Steps-Inv ss v))

  all_moves_left-replicate :
      (n : ℕ) (s : Subtask E R) → moves_left s ≡ 3 → all_moves_left (replicate n s) ≡ 3 * n
  all_moves_left-replicate zero s h = refl
  all_moves_left-replicate (suc n) s h = omega (arith, all_moves_left-replicate n s h)

  -- However the workers of `n` subtasks interleave, once the parallel task is signalled, either no
  -- exception is set and every subtask has completed, or its exception is that of a subtask.
  pub parallel_outcome :
      (n k : ℕ) (p : ParallelTaskContext E R)
      → Steps (submitted n) k p
      → p.parent.evt ≡ true
      → (p.parent.exception ≡ none) × (all_completed p.subtasks ≡ true)
        ⊎ ((e : E) × (p.parent.exception ≡ some e) × Blamed e p.subtasks)
  parallel_outcome n k p run ends =
      let v = Steps-Inv run (submitted-Inv n) in
      elim (Option-cases p.parent.exception) [
        | inl clean ↦ inl (clean, v.complete_all (ground arith))
        | inr (e, raised) ↦ inr (e, raised, v.failed_blames e raised)
      ]

  -- With at least one subtask, the parallel task is signalled by the time that every worker has
  -- returned, in whatever order they ran.
  pub parallel_ends :
      (n k : ℕ) (p : ParallelTaskContext E R)
      → Steps (submitted (suc n)) k p
      → all_returned p.subtasks ≡ true
      → p.parent.evt ≡ true
  parallel_ends n k p run all =
      let v = Steps-Inv run (submitted-Inv (suc n)) in
      let size = Steps-length run in
      elim (Bool-cases p.parent.evt) [
        | inl ended ↦ ended
        | inr open_still ↦
            cc (all, v.open_live open_still (λ e. let none_left = ap length e in omega arith))
      ]

  -- A parallel task of no subtasks is never signalled, so that its handler waits for ever.
  pub parallel_empty_never_ends :
      (k : ℕ) (p : ParallelTaskContext E R) → Steps (submitted 0) k p → p.parent.evt ≡ false
  parallel_empty_never_ends k p here = refl
  parallel_empty_never_ends (suc k) p (next ss s) =
      let size = Steps-length ss in absurd (omega (arith, Step-nonempty s))

  -- No interleaving of the workers of `n` subtasks takes more than `3 n` moves.
  pub parallel_bounded :
      (n k : ℕ) (p : ParallelTaskContext E R) → Steps (submitted n) k p → k ≤ 3 * n
  parallel_bounded n k p run = omega (
    arith,
    Steps-moves run (submitted-Inv n),
    all_moves_left-replicate n (record { phase = queued; context = new_context }) refl,
  )

  All-unsignalled :
      (ss : List (Subtask E R))
      → All Fine ss
      → All (λ s. s.context.evt ≡ false → s.context.exception ≡ none) ss
  All-unsignalled [] f = tt
  All-unsignalled (s ∷ ss) f = (f.0.0, All-unsignalled ss f.1)

  pub parallel_unsignalled :
      (n k : ℕ) (p : ParallelTaskContext E R)
      → Steps (submitted n) k p
      → All (λ s. s.context.evt ≡ false → s.context.exception ≡ none) p.subtasks
  parallel_unsignalled n k p run = All-unsignalled p.subtasks (Steps-Inv run (submitted-Inv n)).fine
