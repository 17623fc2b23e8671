-- ===== src/Beam/AbortOrder.antt =====
-- Which devices the BEAM aborts and resets, and in which order
-- (src/ska_pst_lmc/beam/beam_component_manager.py, `_abort_task`, `abort` and `obsreset`).
use ska_pst_lmc.Prelude.{
  ℕ, ◌<◌, ◌≡◌, refl, sym, ◌∙◌, Option, String, ◌≢◌, ◌↔◌, inl, inr, Bool, true, List, [], ◌∷◌, ◌++◌,
  arith,
}
use ska_pst_lmc.ObsState.{State}
use ska_pst_lmc.Job.{Outcome, success, cons, nil, lambda, sequential}
use ska_pst_lmc.Job.Executor.{In, pairs, commands, commands_all, Ends}
use ska_pst_lmc.Job.ExecutorOrder.{Reached, sequential_order}
use ska_pst_lmc.Beam.{Device, smrb, recv, dsp, stat, Action, Lambda}
use ska_pst_lmc.Beam.Jobs.{
  Job, tasks, select, is_to_abort, is_to_reset, abort_task, abort_job, obsreset_job,
  obsreset_subtasks,
}
use ska_pst_lmc.Beam.Order.{member, pairs-In}
use ska_pst_lmc.Beam.Waiting.{
  waits_abort, waits_lambda, waits_reset, commands-abort_task, member-select, In-select,
}

abbrev pub abort_stage : Device → ℕ
abort_stage recv = 0
abort_stage dsp = 1
abort_stage stat = 1
abort_stage smrb = 2

abbrev pub reset_place : Device → ℕ
reset_place stat = 0
reset_place dsp = 1
reset_place recv = 2
reset_place smrb = 3

one_of_four : (d : Device) → member d (recv ∷ dsp ∷ stat ∷ smrb ∷ []) ≡ true
one_of_four smrb = refl
one_of_four recv = refl
one_of_four dsp = refl
one_of_four stat = refl

selected_in_turn :
    (p : Device → Bool)
    → pairs (select p (recv ∷ [])) Action.abort
        ++ (pairs (select p (dsp ∷ stat ∷ [])) Action.abort
            ++ (pairs (select p (smrb ∷ [])) Action.abort ++ []))
      ≡ pairs (select p (recv ∷ dsp ∷ stat ∷ smrb ∷ [])) Action.abort
selected_in_turn p = ground arith

commands_of_three :
    (f : Lambda) (name : Option String) (t u v : Job)
    → commands (sequential (cons (lambda f name) (cons t (cons u (cons v nil)))))
      ≡ commands t ++ (commands u ++ (commands v ++ []))
unfolding commands commands_all
commands_of_three f name t u v = refl

module _ (obs_state : Device → State) where
  abort-commands_list :
      commands (abort_job obs_state)
      ≡ pairs (select (λ d. is_to_abort (obs_state d)) (recv ∷ dsp ∷ stat ∷ smrb ∷ [])) Action.abort
  unfolding abort_job
  abort-commands_list =
      commands_of_three _ _ (abort_task obs_state (recv ∷ []))
        (abort_task obs_state (dsp ∷ stat ∷ [])) (abort_task obs_state (smrb ∷ []))
      ∙ rw
          (
            commands-abort_task obs_state (recv ∷ []),
            commands-abort_task obs_state (dsp ∷ stat ∷ []),
            commands-abort_task obs_state (smrb ∷ []),
          )
          (selected_in_turn (λ d. is_to_abort (obs_state d)))

  -- An abort of the BEAM can send `Abort` to exactly the devices whose observation state is neither
  -- ABORTED nor FAULT nor EMPTY, and it can send no other command.
  pub abort_selects :
      (d : Device) (a : Action)
      → In (d, a) (commands (abort_job obs_state))
        ↔ ((a ≡ Action.abort) × (is_to_abort (obs_state d) ≡ true))
  abort_selects d a =
      let p : Device → Bool = λ x. is_to_abort (obs_state x) in
      let all : List Device = recv ∷ dsp ∷ stat ∷ smrb ∷ [] in
      (
        (λ i.
            let (m, e) = pairs-In d (select p all) a Action.abort (rw abort-commands_list at i) in
            (sym e, (member-select p d all m).1)),
        λ (e, q). rw (e, abort-commands_list) (In-select p d all Action.abort (one_of_four d) q),
      )

module _ {E : Type 0} {answers : Device → Action → Outcome E → Type 0} where
  abort_in_order :
      (obs_state : Device → State) (d x : Device)
      → Reached answers
          (d, Action.abort)
          (tasks (
            abort_task obs_state (recv ∷ [])
            ∷ abort_task obs_state (dsp ∷ stat ∷ [])
            ∷ abort_task obs_state (smrb ∷ [])
            ∷ []))
      → abort_stage x < abort_stage d
      → is_to_abort (obs_state x) ≡ true
      → answers x Action.abort success
  abort_in_order s recv x r before q = absurd (omega arith)
  abort_in_order s dsp recv r before q = (waits_abort s _ r (inl refl)).0 recv refl q
  abort_in_order s dsp dsp r before q = absurd (omega arith)
  abort_in_order s dsp stat r before q = absurd (omega arith)
  abort_in_order s dsp smrb r before q = absurd (omega arith)
  abort_in_order s stat recv r before q = (waits_abort s _ r (inl refl)).0 recv refl q
  abort_in_order s stat dsp r before q = absurd (omega arith)
  abort_in_order s stat stat r before q = absurd (omega arith)
  abort_in_order s stat smrb r before q = absurd (omega arith)
  abort_in_order s smrb recv r before q = (waits_abort s _ r (inl refl)).0 recv refl q
  abort_in_order s smrb dsp r before q =
      (waits_abort s _ (waits_abort s _ r (inl refl)).1 (inl refl)).0 dsp refl q
  abort_in_order s smrb stat r before q =
      (waits_abort s _ (waits_abort s _ r (inl refl)).1 (inl refl)).0 stat refl q
  abort_in_order s smrb smrb r before q = absurd (omega arith)

  resets_in_order :
      (p : Device → Bool) (d x : Device)
      → Reached answers
          (d, Action.obs_reset)
          (tasks (obsreset_subtasks (select p (stat ∷ dsp ∷ recv ∷ smrb ∷ []))))
      → reset_place x < reset_place d
      → p x ≡ true
      → answers x Action.obs_reset success
  resets_in_order p stat x r before q = absurd (omega arith)
  resets_in_order p dsp stat r before q = (waits_reset p stat (dsp ∷ recv ∷ smrb ∷ []) r refl).0 q
  resets_in_order p dsp dsp r before q = absurd (omega arith)
  resets_in_order p dsp recv r before q = absurd (omega arith)
  resets_in_order p dsp smrb r before q = absurd (omega arith)
  resets_in_order p recv stat r before q = (waits_reset p stat (dsp ∷ recv ∷ smrb ∷ []) r refl).0 q
  resets_in_order p recv dsp r before q =
      (waits_reset p dsp (recv ∷ smrb ∷ []) (waits_reset p stat (dsp ∷ recv ∷ smrb ∷ []) r refl).1
          refl).0
        q
  resets_in_order p recv recv r before q = absurd (omega arith)
  resets_in_order p recv smrb r before q = absurd (omega arith)
  resets_in_order p smrb stat r before q = (waits_reset p stat (dsp ∷ recv ∷ smrb ∷ []) r refl).0 q
  resets_in_order p smrb dsp r before q =
      (waits_reset p dsp (recv ∷ smrb ∷ []) (waits_reset p stat (dsp ∷ recv ∷ smrb ∷ []) r refl).1
          refl).0
        q
  resets_in_order p smrb recv r before q =
      (waits_reset p recv (smrb ∷ [])
          (waits_reset p dsp (recv ∷ smrb ∷ [])
            (waits_reset p stat (dsp ∷ recv ∷ smrb ∷ []) r refl).1 refl).1
          refl).0
        q
  resets_in_order p smrb smrb r before q = absurd (omega arith)

module _ {E R : Type 0} {answers : Device → Action → Outcome E → Type 0}
    {calls : Lambda → Outcome E → Type 0} where
  -- `Abort` is sent to a device only after every device of an earlier stage that is to be aborted has
  -- answered it with success: RECV first, then DSP and STAT, then SMRB.
  pub abort_order :
      (obs_state : Device → State) (busy : Bool) (sent : List (Device × Action)) (o : Outcome E)
      (d x : Device)
      → Ends Device Action Lambda E R answers calls busy (abort_job obs_state) sent o
      → In (d, Action.abort) sent
      → abort_stage x < abort_stage d
      → is_to_abort (obs_state x) ≡ true
      → answers x Action.abort success
  unfolding abort_job
  abort_order obs_state busy sent o d x run i before to_abort =
      abort_in_order obs_state d x (waits_lambda (sequential_order busy _ sent o _ run i)) before
        to_abort

  -- A reset sends `ObsReset` to a device only after every device that is to be aborted has answered
  -- `Abort` with success, and every device before it that is not EMPTY has answered `ObsReset` with
  -- success: STAT first, then DSP, RECV and SMRB.
  pub obsreset_order :
      (obs_state : Device → State) (busy : Bool) (sent : List (Device × Action)) (o : Outcome E)
      (d x : Device)
      → Ends Device Action Lambda E R answers calls busy (obsreset_job obs_state) sent o
      → In (d, Action.obs_reset) sent
      → (is_to_abort (obs_state x) ≡ true → answers x Action.abort success)
        × (reset_place x < reset_place d
            → is_to_reset (obs_state x) ≡ true
            → answers x Action.obs_reset success)
  unfolding obsreset_job
  obsreset_order obs_state busy sent o d x run i =
      let r = sequential_order busy _ sent o _ run i in
      let unlike : Action.abort ≢ Action.obs_reset = λ e. cc in
      let (recv_ok, r') = waits_abort obs_state (recv ∷ []) r (inr unlike) in
      let (readers_ok, r'') = waits_abort obs_state (dsp ∷ stat ∷ []) r' (inr unlike) in
      let (smrb_ok, rest) = waits_abort obs_state (smrb ∷ []) r'' (inr unlike) in
      (
        elim x as (λ k. is_to_abort (obs_state k) ≡ true → answers k Action.abort success) [
          | smrb ↦ smrb_ok smrb refl
          | recv ↦ recv_ok recv refl
          | dsp ↦ readers_ok dsp refl
          | stat ↦ readers_ok stat refl
        ],
        resets_in_order (λ y. is_to_reset (obs_state y)) d x rest,
      )
