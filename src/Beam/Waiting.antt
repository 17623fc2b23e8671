-- ===== src/Beam/Waiting.antt =====
-- What a command of the BEAM waits for, behind aborts and resets
-- (src/ska_pst_lmc/beam/beam_component_manager.py, `_abort_task`, `abort` and `obsreset`).
use ska_pst_lmc.Prelude.{
  ◌≡◌, refl, ◌≢◌, ◌⊎◌, inl, inr, Bool, Option, String, true, false, List, [], ◌∷◌, arith,
  if◌then◌else◌, Bool-cases, ltb, length,
}
use ska_pst_lmc.ObsState.{State}
use ska_pst_lmc.Job.{Tasks, Outcome, success, cons, lambda, noop, device_command}
use ska_pst_lmc.Job.Executor.{In, first, later, pairs, commands}
use ska_pst_lmc.Job.ExecutorSound.{Succeeds}
use ska_pst_lmc.Job.ExecutorOrder.{Reached, now, after, All-In}
use ska_pst_lmc.Beam.{Device, smrb, recv, dsp, stat, Action, Lambda}
use ska_pst_lmc.Beam.Jobs.{Job, tasks, select, is_to_abort, abort_task, obsreset_subtasks}
use ska_pst_lmc.Beam.Order.{is_device, member, pairs-In, waits_elsewhere}

is_device-eq : (x d : Device) → is_device x d ≡ true → x ≡ d
is_device-eq smrb smrb e = refl
is_device-eq recv recv e = refl
is_device-eq dsp dsp e = refl
is_device-eq stat stat e = refl
is_device-eq smrb recv e = cc
is_device-eq smrb dsp e = cc
is_device-eq smrb stat e = cc
is_device-eq recv smrb e = cc
is_device-eq recv dsp e = cc
is_device-eq recv stat e = cc
is_device-eq dsp smrb e = cc
is_device-eq dsp recv e = cc
is_device-eq dsp stat e = cc
is_device-eq stat smrb e = cc
is_device-eq stat recv e = cc
is_device-eq stat dsp e = cc

pub member-select :
    (p : Device → Bool) (d : Device) (ds : List Device)
    → member d (select p ds) ≡ true
    → (member d ds ≡ true) × (p d ≡ true)
member-select p d [] m = cc
member-select p d (x ∷ xs) m = ground (arith, is_device-eq x d, member-select p d xs)

pub In-select :
    (p : Device → Bool) (d : Device) (ds : List Device) (a : Action)
    → member d ds ≡ true
    → p d ≡ true
    → In (d, a) (pairs (select p ds) a)
In-select p d [] a m q = cc
In-select p d (x ∷ xs) a m q = elim (Bool-cases (is_device x d)) [
  | inl here ↦
      let same : x ≡ d = is_device-eq x d here in
      let chosen : p x ≡ true = rw same q in rw chosen (first (rw same))
  | inr there ↦ elim (Bool-cases (p x)) [
    | inl ok ↦ rw ok (later (In-select p d xs a (ground arith) q))
    | inr out ↦ rw out (In-select p d xs a (ground arith) q)
  ]
]

abbrev abort_if_any : List Device → Job
abort_if_any ds = if ltb 0 (length ds) then device_command ds Action.abort "Abort" else noop

commands_if_any : (ds : List Device) → commands (abort_if_any ds) ≡ pairs ds Action.abort
unfolding commands
commands_if_any [] = refl
commands_if_any (d ∷ ds) = ground arith

pub commands-abort_task :
    (obs_state : Device → State) (ds : List Device)
    → commands (abort_task obs_state ds)
      ≡ pairs (select (λ d. is_to_abort (obs_state d)) ds) Action.abort
unfolding commands abort_task
commands-abort_task obs_state ds = commands_if_any (select (λ d. is_to_abort (obs_state d)) ds)

module _ {E : Type 0} {answers : Device → Action → Outcome E → Type 0} where
  -- The command is sent after the aborts of a subtask that it is not of.
  pub waits_abort :
      (obs_state : Device → State) (ds : List Device) {ts : Tasks Device Action Lambda} {d : Device}
      {a : Action}
      → Reached answers (d, a) (cons (abort_task obs_state ds) ts)
      → (member d ds ≡ false) ⊎ (Action.abort ≢ a)
      → ((x : Device)
          → member x ds ≡ true
          → is_to_abort (obs_state x) ≡ true
          → answers x Action.abort success)
        × Reached answers (d, a) ts
  waits_abort obs_state ds {d} {a} (now i) other =
      let p = λ (x : Device). is_to_abort (obs_state x) in
      let (m, e) = pairs-In d (select p ds) a Action.abort (rw commands-abort_task at i) in
      let (n, q) = member-select p d ds m in
      elim other [ inl out ↦ cc | inr unlike ↦ absurd (unlike e) ]
  waits_abort obs_state ds (after h r) other =
      let p = λ (x : Device). is_to_abort (obs_state x) in
      let own = rw commands-abort_task at h in
      ((λ x m q. All-In (Succeeds answers) own (In-select p x ds Action.abort m q)), r)

  pub waits_lambda :
      {f : Lambda} {name : Option String} {ts : Tasks Device Action Lambda} {c : Device × Action}
      → Reached answers c (cons (lambda f name) ts)
      → Reached answers c ts
  unfolding commands
  waits_lambda (now i) = elim i [ ]
  waits_lambda (after h r) = r

  -- A reset waits for those before it.
  pub waits_reset :
      (p : Device → Bool) (y : Device) (ds : List Device) {d : Device}
      → Reached answers (d, Action.obs_reset) (tasks (obsreset_subtasks (select p (y ∷ ds))))
      → is_device y d ≡ false
      → (p y ≡ true → answers y Action.obs_reset success)
        × Reached answers (d, Action.obs_reset) (tasks (obsreset_subtasks (select p ds)))
  unfolding commands
  waits_reset p y ds {d} r other = elim (Bool-cases (p y)) [
    | inl ok ↦ let (h, r') = waits_elsewhere (rw ok at r) (ground arith) in ((λ e. h.0), r')
    | inr out ↦ ((λ e. cc), rw out at r)
  ]
