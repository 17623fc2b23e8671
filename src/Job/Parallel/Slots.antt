-- ===== src/Job/Parallel/Slots.antt =====
-- The subtasks of a parallel task as a list: reads, writes and tests
-- (src/ska_pst_lmc/job/task_executor.py, `_handle_parallel_task` and
-- `_handle_parallel_subtask`).
use native.Mathlib.Decide.{ℕ_discrete}
use ska_pst_lmc.Prelude.{
  ℕ, zero, suc, ◌<◌, ◌≡◌, refl, ◌∙◌, Bool, true, false, ◌&&◌, none, lt-length, some, List, [], ◌∷◌,
  get_elem?, get_elem?-set_self, get_elem?-set_ne, set, length, All, arith,
}
use ska_pst_lmc.Job.Parallel.{Phase, queued, returned, Subtask, is_completed, all_completed}

module _ {E R : Type 0} where
  -- A subtask with the exception is among them.
  abbrev pub Blamed : E → List (Subtask E R) → Type 0
  Blamed e ss =
      (i : ℕ) × (s : Subtask E R) × (get_elem? ss i ≡ some s) × (s.context.exception ≡ some e)

  pub Blamed-set :
      (e : E) (ss : List (Subtask E R)) (j : ℕ) (s t : Subtask E R)
      → get_elem? ss j ≡ some s
      → (s.context.exception ≡ some e → t.context.exception ≡ some e)
      → Blamed e ss
      → Blamed e (set ss j t)
  Blamed-set e ss j s t at_j keeps (i, u, at_i, blame) = elim (ℕ_discrete j i) [
    | yes p ↦
        let same : s ≡ u = ground arith in
        (j, t, get_elem?-set_self ss j t (lt-length ss j at_j), keeps (rw same blame))
    | no n ↦ (i, u, get_elem?-set_ne ss t n ∙ at_i, blame)
  ]

  -- What holds of one subtask at any time.
  abbrev pub Fine : Subtask E R → Type 0
  Fine s =
      (s.context.evt ≡ false → s.context.exception ≡ none)
      × (s.phase ≡ queued → s.context.evt ≡ false)

  -- While the parent is open, what has returned has completed.
  abbrev pub Good : Subtask E R → Type 0
  Good s = s.phase ≡ returned → is_completed s ≡ true

  abbrev pub is_returned : Subtask E R → Bool
  is_returned s = elim s.phase [ returned ↦ true | _ ↦ false ]

  abbrev pub all_returned : List (Subtask E R) → Bool
  all_returned [] = true
  all_returned (s ∷ ss) = is_returned s && all_returned ss

  pub all_completed-set :
      (ss : List (Subtask E R)) (i : ℕ) (s : Subtask E R)
      → all_completed ss ≡ true
      → is_completed s ≡ true
      → all_completed (set ss i s) ≡ true
  all_completed-set [] i s h c = h
  all_completed-set (x ∷ xs) zero s h c = ground arith
  all_completed-set (x ∷ xs) (suc i) s h c = ground (arith, all_completed-set xs i s)

  pub all_completed-get :
      (ss : List (Subtask E R)) (i : ℕ) {s : Subtask E R}
      → all_completed ss ≡ true
      → get_elem? ss i ≡ some s
      → is_completed s ≡ true
  all_completed-get [] i h e = cc
  all_completed-get (x ∷ xs) zero h e = ground arith
  all_completed-get (x ∷ xs) (suc i) {s} h e = all_completed-get xs i (ground arith) e

  -- One that has not returned is enough.
  pub all_returned-set :
      (ss : List (Subtask E R)) (i : ℕ) (s : Subtask E R)
      → i < length ss
      → is_returned s ≡ false
      → all_returned (set ss i s) ≡ false
  all_returned-set [] i s h r = elim h [ ]
  all_returned-set (x ∷ xs) zero s h r = ground arith
  all_returned-set (x ∷ xs) (suc i) s h r = ground (arith, all_returned-set xs i s)

  pub all_returned-Good :
      (ss : List (Subtask E R)) → All Good ss → all_returned ss ≡ true → all_completed ss ≡ true
  all_returned-Good [] g h = refl
  all_returned-Good (x ∷ xs) g h = ground (arith, all_returned-Good xs g.1)

  pub all_completed-set_phase :
      (ss : List (Subtask E R)) (i : ℕ) (s : Subtask E R) (ph : Phase)
      → get_elem? ss i ≡ some s
      → all_completed (set ss i (record s { phase = ph })) ≡ all_completed ss
  all_completed-set_phase [] i s ph e = refl
  all_completed-set_phase (x ∷ xs) zero s ph e = let same : x ≡ s = cc in rw same
  all_completed-set_phase (x ∷ xs) (suc i) s ph e = rw (all_completed-set_phase xs i s ph e)
