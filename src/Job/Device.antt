-- ===== src/Job/Device.antt =====
-- The executor of device commands (src/ska_pst_lmc/job/device_task_executor.py). Contexts are shared
-- with the threads that wait on them, so they stand in a store, under the number that names each.
-- `json.loads`, the proxies' answers and the exceptions are parameters.
pub mod Signals
mod Invariant
pub mod Runs
use ska_pst_lmc.Prelude.{
  ℕ, String, ◌≡◌, Bool, true, false, not, ◌&&◌, ◌||◌, Option, none, some, List, [], ◌∷◌, Key, ◌==◌,
  lookup, string_key, insert, erase, nat_beq, if◌then◌else◌,
}
use ska_pst_lmc.Job.{
  TaskContext, new_context, signal_complete, signal_failed, signal_failed_from_str,
}

-- The result codes of a command, as util/remote_task.py lists them.
pub data ResultCode : Type 0 where
  ok_code started_code queued_code failed_code : ResultCode
  unknown_code rejected_code not_allowed_code aborted_code : ResultCode

-- What `action(device)` and `ResultCode(int(...))` come to.
pub data Answer (E : Type 0) : Type 0 where
  raises : E → Answer E
  returns : ResultCode → String → Answer E

pub record DeviceCommandTaskExecutor (D E R : Type 0) : Type 0 where
  pub contexts : ℕ → TaskContext E R
  pub task_context_map : List (String × ℕ)
  pub result_subscriptions : List D
  pub running : Bool
  -- `_process_queue` still loops: no exception has left it.
  pub looping : Bool

-- What reaches the executor: a task from the queue, with what subscribing to its device and its
-- action come to, or an event of a device.
pub data Input (D E : Type 0) : Type 0 where
  task : ℕ → D → Option E → Answer E → Input D E
  event : String → String → Input D E

-- `result_code not in [QUEUED, OK, STARTED]`
abbrev pub is_accepted : ResultCode → Bool
is_accepted queued_code = true
is_accepted ok_code = true
is_accepted started_code = true
is_accepted _ = false

abbrev pub is_ok : ResultCode → Bool
is_ok ok_code = true
is_ok _ = false

abbrev pub update {ℓ} : {C : Type ℓ} → ℕ → C → (ℕ → C) → ℕ → C
update ref c contexts j = if nat_beq ref j then c else contexts j

module _ {D E R : Type 0} ⦃e : Key D⦄ (runtime_error : String → E)
    (json_loads : String → Option R) where
  abbrev pub subscribed : D → List D → Bool
  subscribed device [] = false
  subscribed device (d ∷ ds) = d == device || subscribed device ds

  -- `none` is the exception that leaves `subscribe_change_event`.
  unfoldable pub ensure_subscription :
      D → Option E → DeviceCommandTaskExecutor D E R → Option (DeviceCommandTaskExecutor D E R)
  ensure_subscription device raised x =
      if subscribed device x.result_subscriptions then some x else elim raised [
        | none ↦ some (record x { result_subscriptions = device ∷ x.result_subscriptions })
        | some e ↦ none
      ]

  abbrev signal :
      ℕ
      → (TaskContext E R → TaskContext E R)
      → DeviceCommandTaskExecutor D E R
      → DeviceCommandTaskExecutor D E R
  signal ref f x = record x { contexts = update ref (f (x.contexts ref)) x.contexts }

  -- The part of `_handle_task` under the lock.
  unfoldable pub start_command :
      ℕ → Answer E → DeviceCommandTaskExecutor D E R → DeviceCommandTaskExecutor D E R
  start_command ref (raises e) x = signal ref (signal_failed e) x
  start_command ref (returns code msg_or_command_id) x =
      if not (is_accepted code)
      then signal ref (signal_failed_from_str runtime_error msg_or_command_id) x
      else if is_ok code
      then signal ref (signal_complete none) x
      else record x { task_context_map = insert msg_or_command_id ref x.task_context_map }

  -- An exception of `_ensure_subscription` is outside the `try`, and it ends `_process_queue`.
  unfoldable pub handle_task :
      ℕ
      → D
      → Option E
      → Answer E
      → DeviceCommandTaskExecutor D E R
      → DeviceCommandTaskExecutor D E R
  unfolding ensure_subscription start_command
  handle_task ref device raised answer x = elim (ensure_subscription device raised x) [
    | none ↦ record x { looping = false }
    | some x' ↦ start_command ref answer x'
  ]

  abbrev pub end_command :
      ℕ → String → DeviceCommandTaskExecutor D E R → DeviceCommandTaskExecutor D E R
  end_command ref msg x = elim (json_loads msg) [
    | none ↦ signal ref (signal_failed_from_str runtime_error msg) x
    | some result ↦ signal ref (signal_complete (some result)) x
  ]

  unfoldable pub handle_subscription_event :
      String → String → DeviceCommandTaskExecutor D E R → DeviceCommandTaskExecutor D E R
  handle_subscription_event command_id msg x = elim (lookup command_id x.task_context_map) [
    | none ↦ x
    | some ref ↦
        let x' = end_command ref msg x in
        record x' { task_context_map = erase command_id x'.task_context_map }
  ]

  -- A task is taken from the queue only while `_process_queue` loops; events come by themselves.
  unfoldable pub handle :
      DeviceCommandTaskExecutor D E R → Input D E → DeviceCommandTaskExecutor D E R
  unfolding handle_task handle_subscription_event
  handle x (task ref device raised answer) =
      if x.looping then handle_task ref device raised answer x else x
  handle x (event command_id msg) = handle_subscription_event command_id msg x

  unfoldable pub handle_all :
      DeviceCommandTaskExecutor D E R → List (Input D E) → DeviceCommandTaskExecutor D E R
  handle_all x [] = x
  handle_all x (i ∷ is) = handle_all (handle x i) is

module _ {D E R : Type 0} where
  abbrev pub new_executor : DeviceCommandTaskExecutor D E R
  new_executor = record {
    contexts = λ ref. new_context;
    task_context_map = [];
    result_subscriptions = [];
    running = false;
    looping = false;
  }

  unfoldable pub start : DeviceCommandTaskExecutor D E R → DeviceCommandTaskExecutor D E R
  start x = if x.running then x else record x { running = true; looping = true }

  -- The subscriptions are cancelled, and they stay in the dictionary.
  unfoldable pub stop : DeviceCommandTaskExecutor D E R → DeviceCommandTaskExecutor D E R
  stop x = if x.running then record x { running = false; looping = false } else x
