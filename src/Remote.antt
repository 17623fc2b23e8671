-- ===== src/Remote.antt =====
-- A command on a remote device and several of them together (src/ska_pst_lmc/util/remote_task.py).
-- `parse_int` is `int`, and `parse_status` is the look-up of a name in the library's enum `TaskStatus`;
-- `none` is the exception they raise.
pub mod Overall
pub mod Immediate
mod Examples
use ska_pst_lmc.Prelude.{
  ℕ, zero, suc, ◌+◌, ◌/◌, String, Bool, true, false, Option, none, some, List, [], ◌∷◌, ◌++◌,
  lookup, insert, string_key, length, set, get_elem?, nat_beq, if◌then◌else◌, ◌>>=◌,
}

-- `TaskStatus` and `ResultCode` of ska_tango_base.
pub data TaskStatus : Type 0 where
  staging queued in_progress aborted not_found completed rejected failed : TaskStatus

pub data ResultCode : Type 0 where
  ok started queued_code failed_code unknown rejected_code not_allowed aborted_code : ResultCode

pub record RemoteTask : Type 0 where
  pub command_id : Option String
  pub status : TaskStatus
  pub progress : Option ℕ

-- `RemoteTask.__init__`
abbrev pub new_task : RemoteTask
new_task = record { command_id = none; status = staging; progress = none }

-- `RemoteTask.__call__`, of what the action on the device answers.
unfoldable pub call_task : ResultCode × String → RemoteTask → RemoteTask
call_task (ok, details) t = record t { status = completed; progress = some 100 }
call_task (queued_code, details) t = record t {
  status = queued;
  command_id = some details;
  progress = some 0;
}
call_task (rejected_code, details) t = record t { status = rejected }
call_task (started, details) t = t
call_task (failed_code, details) t = t
call_task (unknown, details) t = t
call_task (not_allowed, details) t = t
call_task (aborted_code, details) t = t

-- `{k: parse(v) for (k, v) in zip(it, it)}` over one iterator: the values come in pairs.
abbrev pub pairs_from :
    {V : Type 0}
    → (String → Option V)
    → List String
    → List (String × V)
    → Option (List (String × V))
pairs_from parse [] d = some d
pairs_from parse (k ∷ []) d = some d
pairs_from parse (k ∷ v ∷ rest) d = parse v >>= λ x. pairs_from parse rest (insert k x d)

-- The value of the command, if it is among them.
abbrev pub value_of : {V : Type 0} → Option String → List (String × V) → Option V
value_of none d = none
value_of (some command_id) d = lookup command_id d

abbrev pub same_status : TaskStatus → TaskStatus → Bool
same_status staging staging = true
same_status queued queued = true
same_status in_progress in_progress = true
same_status aborted aborted = true
same_status not_found not_found = true
same_status completed completed = true
same_status rejected rejected = true
same_status failed failed = true
same_status _ _ = false

abbrev same_progress : ℕ → Option ℕ → Bool
same_progress n none = false
same_progress n (some m) = nat_beq n m

-- `RemoteTask._progress_callback`: the task and whether it calls its `task_callback`.
unfoldable pub progress_callback :
    (String → Option ℕ) → List String → RemoteTask → Option (RemoteTask × Bool)
progress_callback parse_int values t = pairs_from parse_int values [] >>= λ d.
    elim (value_of t.command_id d) [
      | none ↦ some (t, false)
      | some progress ↦
          if same_progress progress t.progress
          then some (t, false)
          else some (record t { progress = some progress }, true)
    ]

-- `RemoteTask._status_callback`
unfoldable pub status_callback :
    (String → Option TaskStatus) → List String → RemoteTask → Option (RemoteTask × Bool)
status_callback parse_status values t = pairs_from parse_status values [] >>= λ d.
    elim (value_of t.command_id d) [
      | none ↦ some (t, false)
      | some status ↦
          if same_status status t.status
          then some (t, false)
          else some (record t { status = status }, true)
    ]

-- `told` are the calls of the `task_callback`, with status and progress, the latest first.
pub record AggregateRemoteTask : Type 0 where
  pub tasks : List RemoteTask
  pub status : TaskStatus
  pub running : Bool
  pub completed : Bool
  pub told : List (TaskStatus × Option ℕ)

-- `AggregateRemoteTask.__init__`
abbrev pub new_aggregate : AggregateRemoteTask
new_aggregate = record {
  tasks = [];
  status = staging;
  running = false;
  completed = false;
  told = [];
}

-- `AggregateRemoteTask.add_remote_task`; `none` is the `ValueError`.
unfoldable pub add_remote_task : AggregateRemoteTask → Option AggregateRemoteTask
add_remote_task a = if a.running then none else some (record a { tasks = a.tasks ++ new_task ∷ [] })

-- One turn of the loop of `_remote_task_updated`.
abbrev pub next_status : TaskStatus → TaskStatus → TaskStatus
next_status completed status = status
next_status current status = if same_status status in_progress then status else current

abbrev pub or_zero : Option ℕ → ℕ
or_zero none = 0
or_zero (some n) = n

abbrev pub gather : List RemoteTask → ℕ → TaskStatus → ℕ × TaskStatus
gather [] progress status = (progress, status)
gather (t ∷ ts) progress status =
    gather ts (progress + or_zero t.progress) (next_status status t.status)

-- `AggregateRemoteTask._remote_task_updated`; `none` is the failed assertion.
unfoldable pub remote_task_updated : AggregateRemoteTask → Option AggregateRemoteTask
remote_task_updated a = elim a.tasks [
  | [] ↦ none
  | t ∷ ts ↦
      let (sum, status) = gather (t ∷ ts) 0 completed in
      let progress = if same_status status completed then 100 else sum / length (t ∷ ts) in
      some (record a { status = status; told = (status, some progress) ∷ a.told })
]

-- The loop of `_execute_task` over the tasks, with what each action answers: the tasks afterwards, and
-- whether one was rejected.
abbrev pub call_all : List (ResultCode × String) → List RemoteTask → List RemoteTask × Bool
call_all _ [] = ([], false)
call_all [] (t ∷ ts) = (t ∷ ts, false)
call_all (answer ∷ answers) (t ∷ ts) =
    let t' = call_task answer t in
    let rest = call_all answers ts in
    if same_status t'.status rejected then (t' ∷ ts, true) else (t' ∷ rest.0, rest.1)

-- `AggregateRemoteTask._execute_task` up to `_run_to_completion`, and whether it goes on to it.
unfoldable pub execute_task :
    List (ResultCode × String) → AggregateRemoteTask → AggregateRemoteTask × Bool
execute_task answers a =
    let (tasks, is_rejected) = call_all answers a.tasks in
    let started : AggregateRemoteTask = record a {
      running = true;
      status = in_progress;
      tasks = tasks;
      told = (in_progress, some 0) ∷ a.told;
    } in
    if is_rejected
    then (record started { told = (rejected, none) ∷ started.told }, false)
    else (started, true)

-- A turn of the loop of `_run_to_completion`.
unfoldable pub poll : AggregateRemoteTask → AggregateRemoteTask
poll a = elim a.status [
  | staging ↦ a
  | queued ↦ a
  | in_progress ↦ a
  | aborted ↦ record a { completed = true }
  | not_found ↦ record a { completed = true }
  | completed ↦ record a { completed = true }
  | rejected ↦ record a { completed = true }
  | failed ↦ record a { completed = true }
]

-- What reaches a task that was executed: values of the attributes of the device of a task, and a turn
-- of the loop that waits.
pub data Event : Type 0 where
  progress_values status_values : ℕ → List String → Event
  poll_turn : Event

module _ (parse_int : String → Option ℕ) (parse_status : String → Option TaskStatus) where
  -- What a callback of the task at a place comes to; an exception leaves all as it was.
  abbrev pub updated : ℕ → Option (RemoteTask × Bool) → AggregateRemoteTask → AggregateRemoteTask
  updated i none a = a
  updated i (some (t, tells)) a =
      let a' : AggregateRemoteTask = record a { tasks = set a.tasks i t } in
      if tells then (elim (remote_task_updated a') [ none ↦ a' | some b ↦ b ]) else a'

  unfoldable pub handle : Event → AggregateRemoteTask → AggregateRemoteTask
  unfolding remote_task_updated progress_callback status_callback poll
  handle (progress_values i values) a = elim (get_elem? a.tasks i) [
    | none ↦ a
    | some t ↦ updated i (progress_callback parse_int values t) a
  ]
  handle (status_values i values) a = elim (get_elem? a.tasks i) [
    | none ↦ a
    | some t ↦ updated i (status_callback parse_status values t) a
  ]
  handle poll_turn a = poll a

  unfoldable pub handle_all : List Event → AggregateRemoteTask → AggregateRemoteTask
  handle_all [] a = a
  handle_all (e ∷ es) a = handle_all es (handle e a)
