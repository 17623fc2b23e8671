-- ===== src/Job/Device/Signals.antt =====
-- What one task and one event do to the contexts (src/ska_pst_lmc/job/device_task_executor.py).
use ska_pst_lmc.Prelude.{
  ℕ, String, ◌≡◌, refl, Option, none, some, ◌∷◌, Key, ◌==◌, lookup, lookup-insert, lookup-erase,
  string_key, nat_beq, if◌then◌else◌, arith, Bool-cases, inl, inr,
}
use ska_pst_lmc.Job.{TaskContext, signal_complete, signal_failed}
use ska_pst_lmc.Job.Device.{
  queued_code, started_code, ok_code, Answer, raises, returns, DeviceCommandTaskExecutor,
  start_command, handle_subscription_event, handle_task, end_command, subscribed,
}

-- What an answer is meant to do to the context of its task.
abbrev pub answered : {E R : Type 0} → (String → E) → Answer E → TaskContext E R → TaskContext E R
answered runtime_error (raises e) c = signal_failed e c
answered runtime_error (returns ok_code msg) c = signal_complete none c
answered runtime_error (returns queued_code msg) c = c
answered runtime_error (returns started_code msg) c = c
answered runtime_error (returns _ msg) c = signal_failed (runtime_error msg) c

-- The command id of an answer whose command goes on in the device.
abbrev pub goes_on : {E : Type 0} → Answer E → Option String
goes_on (returns queued_code id) = some id
goes_on (returns started_code id) = some id
goes_on _ = none

abbrev pub also_at : String → ℕ → Option String → Option ℕ → Option ℕ
also_at id ref none old = old
also_at id ref (some own) old = if own == id then some ref else old

-- What the message of an event is meant to do to the context of its command.
abbrev pub ended :
    {E R : Type 0} → (String → E) → (String → Option R) → String → TaskContext E R → TaskContext E R
ended runtime_error json_loads msg c = elim (json_loads msg) [
  | none ↦ signal_failed (runtime_error msg) c
  | some result ↦ signal_complete (some result) c
]

module _ {D E R : Type 0} ⦃e : Key D⦄ (runtime_error : String → E)
    (json_loads : String → Option R) where
  start_command_lem :
      (ref : ℕ) (answer : Answer E) (x : DeviceCommandTaskExecutor D E R) (j : ℕ) (id : String)
      → let y = start_command runtime_error json_loads ref answer x in
        (y.contexts j ≡ (
          if nat_beq ref j then answered runtime_error answer (x.contexts ref) else x.contexts j))
        × (lookup id y.task_context_map
            ≡ also_at id ref (goes_on answer) (lookup id x.task_context_map))
  unfolding start_command
  start_command_lem ref (raises r) x j id = (ground arith, refl)
  start_command_lem ref (returns ok_code msg) x j id = (ground arith, refl)
  start_command_lem ref (returns queued_code msg) x j id =
      (ground arith, lookup-insert msg id ref x.task_context_map)
  start_command_lem ref (returns started_code msg) x j id =
      (ground arith, lookup-insert msg id ref x.task_context_map)
  start_command_lem ref (returns _ msg) x j id = (ground arith, refl)

  -- While the queue is read, a task whose subscription succeeds changes its own context as the
  -- device's answer says, and no other; it is put under its command id exactly when the command
  -- goes on in the device, and no other id is touched.
  pub handle_task_lem :
      (ref : ℕ) (device : D) (answer : Answer E) (x : DeviceCommandTaskExecutor D E R) (j : ℕ)
      (id : String)
      → let y = handle_task runtime_error json_loads ref device none answer x in
        (y.contexts j ≡ (
          if nat_beq ref j then answered runtime_error answer (x.contexts ref) else x.contexts j))
        × (lookup id y.task_context_map
            ≡ also_at id ref (goes_on answer) (lookup id x.task_context_map))
  unfolding handle_task
  handle_task_lem ref device answer x j id =
      elim (Bool-cases (subscribed runtime_error json_loads device x.result_subscriptions)) [
        | inl old ↦ rw (old, handle_task) (start_command_lem ref answer x j id)
        | inr new ↦
            rw (new, handle_task)
              (start_command_lem ref answer
                (record x { result_subscriptions = device ∷ x.result_subscriptions }) j id)
      ]

  end_command_lem :
      (ref : ℕ) (msg : String) (x : DeviceCommandTaskExecutor D E R) (j : ℕ)
      → let y = end_command runtime_error json_loads ref msg x in
        (y.contexts j ≡ (
          if nat_beq ref j
          then ended runtime_error json_loads msg (x.contexts ref)
          else x.contexts j))
        × (y.task_context_map ≡ x.task_context_map)
  end_command_lem ref msg x j = ground arith

  -- An event for a command that is waited for signals the context of that command by its message,
  -- and no other, and takes the id, and no other, from the map. Any other event changes nothing.
  pub handle_subscription_event_lem :
      (id msg : String) (x : DeviceCommandTaskExecutor D E R)
      → let y = handle_subscription_event runtime_error json_loads id msg x in
        (lookup id x.task_context_map ≡ none → y ≡ x)
        × ((ref : ℕ)
            → lookup id x.task_context_map ≡ some ref
            → ((j : ℕ)
                → y.contexts j ≡ (
                    if nat_beq ref j
                    then ended runtime_error json_loads msg (x.contexts ref)
                    else x.contexts j))
              × ((k : String)
                  → lookup k y.task_context_map
                    ≡ (if id == k then none else lookup k x.task_context_map)))
  unfolding handle_subscription_event
  handle_subscription_event_lem id msg x = (
    λ absent. rw (absent, handle_subscription_event),
    λ ref there.
        rw (there, handle_subscription_event)
          (
            (λ j. (end_command_lem ref msg x j).0),
            (λ k. rw (end_command_lem ref msg x 0).1 (lookup-erase id k x.task_context_map)),
          ),
  )
