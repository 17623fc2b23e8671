-- ===== src/Job/Parallel/Invariant.antt =====
-- What the moves of the workers of a parallel task keep
-- (src/ska_pst_lmc/job/task_executor.py, `_handle_parallel_task` and
-- `_handle_parallel_subtask`).
use ska_pst_lmc.Prelude.{
  ℕ, zero, suc, ◌≡◌, refl, ◌∙◌, ◌≢◌, ◌⊎◌, inl, inr, Bool-cases, true, false, Option, none,
  lt-length, All-get, All-set, some, List, [], get_elem?, set, All, arith,
}
use ska_pst_lmc.Job.{Outcome, TaskContext, new_context, completed}
use ska_pst_lmc.Job.Parallel.{
  queued, running, returned, Subtask, ParallelTaskContext, submitted, all_completed,
  take_from_queue, settle, join, Step, takes, settles, joins, Steps, here, next,
}
use ska_pst_lmc.Job.Parallel.Slots.{
  Blamed, Blamed-set, Fine, Good, all_returned, all_completed-set, all_completed-get,
  all_returned-set, all_returned-Good, all_completed-set_phase,
}

module _ {E R : Type 0} where
  pub record Inv (p : ParallelTaskContext E R) : Type 0 where
    pub fine : All Fine p.subtasks
    pub open_unfailed : p.parent.evt ≡ false → p.parent.exception ≡ none
    pub complete_all : completed p.parent ≡ true → all_completed p.subtasks ≡ true
    pub failed_blames : (e : E) → p.parent.exception ≡ some e → Blamed e p.subtasks
    pub open_good : p.parent.evt ≡ false → All Good p.subtasks
    pub open_live : p.parent.evt ≡ false → p.subtasks ≢ [] → all_returned p.subtasks ≡ false

  module _ (c : TaskContext E R) (p : ParallelTaskContext E R) where
    subtasks-join : (join c p).subtasks ≡ p.subtasks
    unfolding join
    subtasks-join = ground arith

    join_open :
        (p.parent.evt ≡ false → p.parent.exception ≡ none)
        → (join c p).parent.evt ≡ false
        → (p.parent.evt ≡ false)
          × (c.exception ≡ none)
          × ((join c p).parent.exception ≡ none)
          × (all_completed p.subtasks ≡ false)
    unfolding join
    join_open u h = ground arith

    join_complete :
        completed (join c p).parent ≡ true
        → (completed p.parent ≡ true) ⊎ (all_completed p.subtasks ≡ true)
    unfolding join
    join_complete h = ground arith

    join_blames :
        (e : E)
        → (join c p).parent.exception ≡ some e
        → (p.parent.exception ≡ some e) ⊎ (c.exception ≡ some e)
    unfolding join
    join_blames e h = ground arith

  takes-Inv :
      (p : ParallelTaskContext E R) (i : ℕ) (s : Subtask E R)
      → get_elem? p.subtasks i ≡ some s
      → s.phase ≡ queued
      → Inv p
      → Inv (record p { subtasks = set p.subtasks i (take_from_queue p s) })
  takes-Inv p i s at_i q v = record {
    fine =
        All-set Fine p.subtasks i _ v.fine
          (let f = All-get Fine p.subtasks i v.fine at_i in ground arith);
    open_unfailed = v.open_unfailed;
    complete_all = λ c.
        all_completed-set p.subtasks i _ (v.complete_all c)
          (all_completed-get p.subtasks i (v.complete_all c) at_i);
    failed_blames = λ e f. Blamed-set e p.subtasks i s _ at_i (λ b. b) (v.failed_blames e f);
    open_good = λ o.
        All-set Good p.subtasks i _ (v.open_good o) (let u = v.open_unfailed o in ground arith);
    open_live = λ o n.
        all_returned-set p.subtasks i _ (lt-length p.subtasks i at_i)
          (let u = v.open_unfailed o in ground arith);
  }

  settles-Inv :
      (p : ParallelTaskContext E R) (i : ℕ) (s : Subtask E R) (o : Outcome E) (r : Option R)
      → get_elem? p.subtasks i ≡ some s
      → s.phase ≡ running
      → s.context.evt ≡ false
      → Inv p
      → Inv (record p { subtasks = set p.subtasks i (settle o r s) })
  settles-Inv p i s o r at_i q unset v = record {
    fine = All-set Fine p.subtasks i _ v.fine (ground arith);
    open_unfailed = v.open_unfailed;
    complete_all =
        λ c. let d = all_completed-get p.subtasks i (v.complete_all c) at_i in ground (arith, d);
    failed_blames = λ e f.
        Blamed-set e p.subtasks i s _ at_i
          (λ b. let f' = All-get Fine p.subtasks i v.fine at_i in ground arith)
          (v.failed_blames e f);
    open_good = λ op. All-set Good p.subtasks i _ (v.open_good op) (λ h. ground arith);
    open_live =
        λ op n. all_returned-set p.subtasks i _ (lt-length p.subtasks i at_i) (ground arith);
  }

  joins-Inv :
      (p : ParallelTaskContext E R) (i : ℕ) (s : Subtask E R)
      → get_elem? p.subtasks i ≡ some s
      → s.phase ≡ running
      → s.context.evt ≡ true
      → Inv p
      → Inv (record (join s.context p) {
        subtasks = set p.subtasks i (record s { phase = returned });
      })
  joins-Inv p i s at_i q is_set v = record {
    fine = All-set Fine p.subtasks i _ v.fine (ground arith);
    open_unfailed = λ o. (join_open s.context p v.open_unfailed o).2;
    complete_all = λ c.
        all_completed-set_phase p.subtasks i s returned at_i
        ∙ elim (join_complete s.context p c) [ inl before ↦ v.complete_all before | inr now ↦ now ];
    failed_blames = λ e f.
        Blamed-set e p.subtasks i s _ at_i (λ b. b)
          (elim (join_blames s.context p e f) [
            | inl before ↦ v.failed_blames e before
            | inr own ↦ (i, s, at_i, own)
          ]);
    open_good = good;
    open_live = λ o n.
        let j = join_open s.context p v.open_unfailed o in
        let before = all_completed-set_phase p.subtasks i s returned at_i in
        elim (Bool-cases (all_returned after)) [
          | inl all ↦ cc (all_returned-Good after (good o) all, before, j.3)
          | inr some_left ↦ some_left
        ];
  }
    where
      after : List (Subtask E R)
      after = set p.subtasks i (record s { phase = returned })

      good : (join s.context p).parent.evt ≡ false → All Good after
      good o =
          let j = join_open s.context p v.open_unfailed o in
          All-set Good p.subtasks i _ (v.open_good j.0) (λ h. ground arith)

  Step-Inv : {p q : ParallelTaskContext E R} → Step p q → Inv p → Inv q
  Step-Inv {p} (takes i s at_i q) v = takes-Inv p i s at_i q v
  Step-Inv {p} (settles i s o r at_i q u) v = settles-Inv p i s o r at_i q u v
  Step-Inv {p} (joins i s at_i q u) v = joins-Inv p i s at_i q u v

  All-submitted :
      (P : Subtask E R → Type 0) (n : ℕ)
      → P (record { phase = queued; context = new_context })
      → All P (submitted n).subtasks
  All-submitted P zero h = tt
  All-submitted P (suc n) h = (h, All-submitted P n h)

  submitted_live :
      (n : ℕ)
      → (submitted {E = E} {R = R} n).subtasks ≢ []
      → all_returned (submitted {E = E} {R = R} n).subtasks ≡ false
  submitted_live zero m = absurd (m refl)
  submitted_live (suc n) m = refl

  pub submitted-Inv : (n : ℕ) → Inv (submitted n)
  submitted-Inv n = record {
    fine = All-submitted Fine n (ground arith);
    open_unfailed = λ o. refl;
    complete_all = λ c. cc;
    failed_blames = λ e f. cc;
    open_good = λ o. All-submitted Good n (λ h. cc);
    open_live = λ o m. submitted_live n m;
  }

  pub Steps-Inv : {p q : ParallelTaskContext E R} {k : ℕ} → Steps p k q → Inv p → Inv q
  Steps-Inv here v = v
  Steps-Inv (next ss s) v = Step-Inv s (Steps-Inv ss v)
