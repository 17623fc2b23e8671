-- ===== src/Job/Parallel.antt =====
-- The subtasks of a parallel task and the context that they share: `_handle_parallel_task` and
-- `_handle_parallel_subtask` of src/ska_pst_lmc/job/task_executor.py, worker thread by worker thread.
pub mod Slots
mod Invariant
pub mod Ends
use ska_pst_lmc.Prelude.{
  ℕ, zero, suc, ◌≡◌, Bool, true, false, not, ◌&&◌, Option, none, some, List, [], ◌∷◌, map,
  get_elem?, set, replicate, if◌then◌else◌,
}
use ska_pst_lmc.Job.{
  Outcome, success, failure, TaskContext, new_context, signal_complete, signal_failed, failed,
  completed,
}

-- Where the worker of a subtask stands: not taken from the queue, between the test of the parent
-- and the lock, or returned.
pub data Phase : Type 0 where
  queued running returned : Phase

pub record Subtask (E R : Type 0) : Type 0 where
  pub phase : Phase
  pub context : TaskContext E R

-- `ParallelTaskContext`: the parent's own context and those of its subtasks.
pub record ParallelTaskContext (E R : Type 0) : Type 0 where
  pub parent : TaskContext E R
  pub subtasks : List (Subtask E R)

module _ {E R : Type 0} where
  -- The context of `_handle_parallel_task` once its `n` subtasks are on the queue.
  abbrev pub submitted : ℕ → ParallelTaskContext E R
  submitted n = record {
    parent = new_context;
    subtasks = replicate n (record { phase = queued; context = new_context });
  }

  abbrev pub is_completed : Subtask E R → Bool
  is_completed s = completed s.context

  abbrev pub all_completed : List (Subtask E R) → Bool
  all_completed [] = true
  all_completed (s ∷ ss) = is_completed s && all_completed ss

  -- The head of `_handle_parallel_subtask`: a parent that has failed ends the worker's part,
  -- otherwise the subtask is routed.
  abbrev pub take_from_queue : ParallelTaskContext E R → Subtask E R → Subtask E R
  take_from_queue p s = record s { phase = if failed p.parent then returned else running }

  abbrev pub settle_context : Outcome E → Option R → TaskContext E R → TaskContext E R
  settle_context success r c = signal_complete r c
  settle_context (failure e) r c = signal_failed e c

  -- What the handler of a routed subtask does to its context in the end.
  abbrev pub settle : Outcome E → Option R → Subtask E R → Subtask E R
  settle o r s = record s { context = settle_context o r s.context }

  -- `if task_context.failed and not parent_task_context.failed`
  abbrev pub fail_parent : Option E → TaskContext E R → TaskContext E R
  fail_parent none parent = parent
  fail_parent (some e) parent = if failed parent then parent else signal_failed e parent

  -- The part under `_parallel_lock`, for the subtask that has just ended.
  unfoldable pub join : TaskContext E R → ParallelTaskContext E R → ParallelTaskContext E R
  join ended p =
      let parent = fail_parent ended.exception p.parent in
      if failed parent
      then record p { parent = parent }
      else if all_completed p.subtasks && not (completed parent)
      then record p { parent = signal_complete none parent }
      else record p { parent = parent }

  -- One move of one worker, on the subtask at `i`. Moves on different subtasks interleave freely.
  pub data Step (p : ParallelTaskContext E R) : ParallelTaskContext E R → Type 0 where
    takes :
        (i : ℕ) (s : Subtask E R)
        → get_elem? p.subtasks i ≡ some s
        → s.phase ≡ queued
        → Step p (record p { subtasks = set p.subtasks i (take_from_queue p s) })
    settles :
        (i : ℕ) (s : Subtask E R) (o : Outcome E) (r : Option R)
        → get_elem? p.subtasks i ≡ some s
        → s.phase ≡ running
        → s.context.evt ≡ false
        → Step p (record p { subtasks = set p.subtasks i (settle o r s) })
    joins :
        (i : ℕ) (s : Subtask E R)
        → get_elem? p.subtasks i ≡ some s
        → s.phase ≡ running
        → s.context.evt ≡ true
        → Step p (record (join s.context p) {
          subtasks = set p.subtasks i (record s { phase = returned });
        })

  pub data Steps (p : ParallelTaskContext E R) : ℕ → ParallelTaskContext E R → Type 0 where
    here : Steps p 0 p
    next : {n : ℕ} {q r : ParallelTaskContext E R} → Steps p n q → Step q r → Steps p (suc n) r
