-- ===== src/Job/Examples.antt =====
-- Jobs and contexts of task.py, task_executor.py and device_task_executor.py on concrete runs.
use ska_pst_lmc.Prelude.{
  ℕ, String, ◌≡◌, refl, ◌⊎◌, true, false, Option, none, some, List, [], ◌∷◌, All, nat_key,
  string_key, nat_beq, if◌then◌else◌,
}
use ska_pst_lmc.Job.{
  Task, lambda, sequential, parallel, device_command, nil, cons, Outcome, success, failure,
  TaskContext,
}
use ska_pst_lmc.Job.Parallel.{
  returned, ParallelTaskContext, submitted, all_completed, join, takes, settles, joins, Steps, here,
  next,
}
use ska_pst_lmc.Job.Parallel.Slots.{Blamed}
use ska_pst_lmc.Job.Parallel.Ends.{parallel_outcome, parallel_ends, parallel_empty_never_ends}
use ska_pst_lmc.Job.Executor.{
  first, later, commands, lambdas, Ends, ends_lambda, ends_one_device, ends_in_turn, ends_devices,
  ends_parallel, turn_nil, turn_failed, turn_done, together_nil, together_ended, merge_nil,
  merge_left, merge_right,
}
use ska_pst_lmc.Job.ExecutorSound.{
  Succeeds, Caused, job_success, job_failure, empty_parallel_blocks,
}
use ska_pst_lmc.Job.ExecutorOrder.{Reached, sequential_order}
use ska_pst_lmc.Job.Device.{
  returns, ok_code, queued_code, rejected_code, Input, task, event, DeviceCommandTaskExecutor,
  new_executor, start, handle, handle_all, handle_task, handle_subscription_event,
  ensure_subscription, start_command,
}
use ska_pst_lmc.Job.Device.Runs.{signalled_once}

-- Two workers: the first subtask raises, the second completes.
abbrev failed_context : TaskContext String String
failed_context = record { evt = true; result = none; exception = some "no ring buffer" }

abbrev completed_context : TaskContext String String
completed_context = record { evt = true; result = none; exception = none }

abbrev failed_end : ParallelTaskContext String String
failed_end = record {
  parent = failed_context;
  subtasks =
      record { phase = returned; context = failed_context }
      ∷ record { phase = returned; context = completed_context }
      ∷ [];
}

failed_run : Steps (submitted 2) 6 failed_end
unfolding join
failed_run =
    next
      (next
        (next
          (next (next (next here (takes 0 _ refl refl)) (takes 1 _ refl refl))
            (settles 0 _ (failure "no ring buffer") none refl refl refl))
          (joins 0 _ refl refl refl))
        (settles 1 _ success none refl refl refl))
      (joins 1 _ refl refl refl)

parallel_outcome_example :
    (failed_end.parent.exception ≡ none) × (all_completed failed_end.subtasks ≡ true)
    ⊎ ((e : String) × (failed_end.parent.exception ≡ some e) × Blamed e failed_end.subtasks)
parallel_outcome_example = parallel_outcome 2 6 failed_end failed_run refl

parallel_ends_example : failed_end.parent.evt ≡ true
parallel_ends_example = parallel_ends 1 6 failed_end failed_run refl

parallel_empty_never_ends_example : (submitted {E = String} {R = String} 0).parent.evt ≡ false
parallel_empty_never_ends_example =
    parallel_empty_never_ends {E = String} {R = String} 0 (submitted 0) here

-- Device 0 refuses every command, and the others accept every one.
abbrev Replies : ℕ → String → Outcome String → Type 0
Replies d a o = o ≡ (if nat_beq d 0 then failure "refused" else success)

abbrev LambdaEnds : String → Outcome String → Type 0
LambdaEnds f o = o ≡ success

abbrev completed_end : ParallelTaskContext String String
completed_end = record {
  parent = completed_context;
  subtasks =
      record { phase = returned; context = completed_context }
      ∷ record { phase = returned; context = completed_context }
      ∷ [];
}

completed_run : Steps (submitted 2) 6 completed_end
unfolding join
completed_run =
    next
      (next
        (next
          (next (next (next here (takes 0 _ refl refl)) (takes 1 _ refl refl))
            (settles 1 _ success none refl refl refl))
          (joins 1 _ refl refl refl))
        (settles 0 _ success none refl refl refl))
      (joins 0 _ refl refl refl)

abbrev scan_job : Task ℕ String String
scan_job =
    sequential (
      cons (lambda "write_scan_config" none) (cons (device_command (1 ∷ 2 ∷ []) "Scan" "Scan") nil))

scan_job-Ends :
    Ends ℕ String String String String Replies LambdaEnds false scan_job
      ((2, "Scan") ∷ (1, "Scan") ∷ [])
      success
scan_job-Ends = ends_in_turn (
    turn_done (ends_lambda refl) (
      turn_done
        (ends_devices (
          ends_parallel completed_run refl (
            together_ended refl (ends_one_device refl)
              (together_ended refl (ends_one_device refl) together_nil (merge_left merge_nil))
              (merge_right (merge_left merge_nil)))))
        turn_nil))

job_success_example : All (Succeeds Replies) (commands scan_job)
job_success_example = job_success false scan_job _ scan_job-Ends

abbrev refused_job : Task ℕ String String
refused_job = sequential (
    cons (device_command (1 ∷ []) "Scan" "Scan") (cons (device_command (0 ∷ []) "Scan" "Scan") nil))

refused_job-Ends :
    Ends ℕ String String String String Replies LambdaEnds false refused_job
      ((1, "Scan") ∷ (0, "Scan") ∷ [])
      (failure "refused")
refused_job-Ends =
    ends_in_turn (turn_done (ends_one_device refl) (turn_failed (ends_one_device refl)))

job_failure_example :
    Caused Replies LambdaEnds "refused" (commands refused_job) (lambdas refused_job)
job_failure_example = job_failure false refused_job _ "refused" refused_job-Ends

sequential_order_example :
    Reached {L = String} Replies
      (0, "Scan")
      (cons
        (device_command (1 ∷ []) "Scan" "Scan")
        (cons (device_command (0 ∷ []) "Scan" "Scan") nil))
sequential_order_example =
    sequential_order false _ _ (failure "refused") (0, "Scan") refused_job-Ends (later (first refl))

empty_parallel_blocks_example :
    ¬ Ends ℕ String String String String Replies LambdaEnds false (parallel nil) [] success
empty_parallel_blocks_example = empty_parallel_blocks false [] success

abbrev executor : DeviceCommandTaskExecutor ℕ String String
executor = start new_executor

abbrev waiting : DeviceCommandTaskExecutor ℕ String String
waiting = handle_task (λ s. s) some 7 3 none (returns queued_code "id_1") executor

abbrev json_loads : String → Option String
json_loads msg = some msg

abbrev scan_inputs : List (Input ℕ String)
scan_inputs =
    task 7 3 none (returns queued_code "id_1")
    ∷ task 8 4 none (returns rejected_code "busy")
    ∷ event "id_1" "done"
    ∷ []

abbrev later_inputs : List (Input ℕ String)
later_inputs = event "id_1" "again" ∷ task 9 3 none (returns ok_code "") ∷ []

id_1_done : ((handle_all (λ s. s) json_loads executor scan_inputs).contexts 7).evt ≡ true
unfolding handle_all handle start handle_task handle_subscription_event ensure_subscription
    start_command
id_1_done = refl

signalled_once_example :
    let x = handle_all (λ s. s) json_loads executor scan_inputs in
    (handle_all (λ s. s) json_loads x later_inputs).contexts 7 ≡ x.contexts 7
signalled_once_example =
    signalled_once (λ s. s) json_loads scan_inputs later_inputs 7 refl id_1_done
