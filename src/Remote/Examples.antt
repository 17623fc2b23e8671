-- ===== src/Remote/Examples.antt =====
-- Two remote tasks.
use ska_pst_lmc.Prelude.{
  ℕ, ◌≤◌, ◌≡◌, refl, String, Bool, true, false, Option, none, some, [], ◌∷◌, string_key, ◌==◌,
  if◌then◌else◌, arith,
}
use ska_pst_lmc.Remote.{
  TaskStatus, in_progress, completed, ok, queued_code, RemoteTask, AggregateRemoteTask, new_task,
  new_aggregate, same_status, add_remote_task, remote_task_updated, execute_task, call_task,
  status_values, poll_turn, handle, handle_all, status_callback, poll,
}
use ska_pst_lmc.Remote.Overall.{all_completed, update_tells_overall}
use ska_pst_lmc.Remote.Immediate.{immediate_never_ends}

abbrev parse_int : String → Option ℕ
parse_int s = if s == "50" then some 50 else if s == "100" then some 100 else none

abbrev parse_status : String → Option TaskStatus
parse_status s =
    if s == "COMPLETED"
    then some completed
    else if s == "IN_PROGRESS"
    then some in_progress
    else none

abbrev half : RemoteTask
half = record { command_id = some "a"; status = in_progress; progress = some 50 }

abbrev done : RemoteTask
done = record { command_id = some "b"; status = completed; progress = some 100 }

abbrev both : AggregateRemoteTask
both = record new_aggregate { tasks = done ∷ half ∷ []; running = true; status = in_progress }

update_tells_overall_example :
    (same_status in_progress completed ≡ false)
    × ((progress : ℕ) × (remote_task_updated both
          ≡ some (record both { status = in_progress; told = (in_progress, some progress) ∷ [] }))
        × (progress ≤ 100)
        × (false ≡ true → progress ≡ 100))
update_tells_overall_example =
    update_tells_overall both done (half ∷ []) refl (omega arith, (omega arith, tt))

abbrev two : AggregateRemoteTask
two = record new_aggregate { tasks = new_task ∷ new_task ∷ [] }

two_added : (add_remote_task new_aggregate ≡ some (record new_aggregate { tasks = new_task ∷ [] }))
unfolding add_remote_task
two_added = refl

-- Two commands that are queued end when their devices say so.
queued_end :
    let b = (execute_task ((queued_code, "a") ∷ (queued_code, "b") ∷ []) two).0 in
    let c =
      handle_all parse_int parse_status
        (status_values 0 ("a" ∷ "COMPLETED" ∷ [])
          ∷ status_values 1 ("x" ∷ "IN_PROGRESS" ∷ "b" ∷ "COMPLETED" ∷ [])
          ∷ poll_turn
          ∷ [])
        b in
    (c.completed ≡ true) × (c.status ≡ completed)
unfolding execute_task call_task handle_all handle status_callback remote_task_updated poll
queued_end = (refl, refl)

abbrev after_two : AggregateRemoteTask × Bool
unfolding execute_task call_task
after_two = execute_task ((ok, "") ∷ (ok, "") ∷ []) two

abbrev polled : AggregateRemoteTask
unfolding handle_all after_two
polled = handle_all parse_int parse_status (poll_turn ∷ poll_turn ∷ []) after_two.0

immediate_never_ends_example :
    (after_two.1 ≡ true)
    × (polled.status ≡ in_progress)
    × (polled.completed ≡ false)
    × (polled.told ≡ (in_progress, some 0) ∷ [])
    × (true ≡ true → all_completed after_two.0.tasks ≡ true)
unfolding after_two polled
immediate_never_ends_example =
    immediate_never_ends parse_int parse_status ((ok, "") ∷ (ok, "") ∷ []) two
      (poll_turn ∷ poll_turn ∷ []) refl refl refl
