-- ===== src/Remote/Immediate.antt =====
-- Remote commands that end at once (src/ska_pst_lmc/util/remote_task.py).
use ska_pst_lmc.Prelude.{
  ℕ, String, ◌≡◌, refl, ap, ◌∙◌, Bool, true, false, ◌&&◌, replicate, Option, none, some, List, [],
  ◌∷◌, length, All, All-get, All-set, get_elem?, arith, Option-cases, inl, inr,
}
use ska_pst_lmc.Remote.Overall.{all_completed}
use ska_pst_lmc.Remote.{
  TaskStatus, in_progress, ResultCode, ok, started, queued_code, failed_code, unknown,
  rejected_code, not_allowed, aborted_code, same_status, rejected, RemoteTask, AggregateRemoteTask,
  new_task, call_task, call_all, execute_task, progress_callback, status_callback, poll, Event,
  progress_values, status_values, poll_turn, updated, handle, handle_all,
}

-- The action neither queues the command nor rejects it.
abbrev pub settles : ResultCode × String → Bool
settles (queued_code, details) = false
settles (rejected_code, details) = false
settles _ = true

abbrev pub all_settle : List (ResultCode × String) → Bool
all_settle [] = true
all_settle (answer ∷ answers) = settles answer && all_settle answers

-- A task that has no command id and is not rejected.
abbrev HasNoCommand : RemoteTask → Type 0
HasNoCommand t = t.command_id ≡ none

record NeverEnds (told : List (TaskStatus × Option ℕ)) (a : AggregateRemoteTask) : Type 0 where
  no_commands : All HasNoCommand a.tasks
  in_progress_still : a.status ≡ in_progress
  not_completed : a.completed ≡ false
  told_still : a.told ≡ told

-- A task without a command id is not changed by its callbacks.
progress_callback_idle :
    (parse : String → Option ℕ) (values : List String) (t : RemoteTask) (r : RemoteTask × Bool)
    → t.command_id ≡ none
    → progress_callback parse values t ≡ some r
    → r ≡ (t, false)
unfolding progress_callback
progress_callback_idle parse values t r idle e = ground arith

status_callback_idle :
    (parse : String → Option TaskStatus) (values : List String) (t : RemoteTask)
    (r : RemoteTask × Bool)
    → t.command_id ≡ none
    → status_callback parse values t ≡ some r
    → r ≡ (t, false)
unfolding status_callback
status_callback_idle parse values t r idle e = ground arith

module _ (parse_int : String → Option ℕ) (parse_status : String → Option TaskStatus)
    (told : List (TaskStatus × Option ℕ)) where
  updated-NeverEnds :
      (a : AggregateRemoteTask) (i : ℕ) (t : RemoteTask) (o : Option (RemoteTask × Bool))
      → NeverEnds told a
      → HasNoCommand t
      → ((r : RemoteTask × Bool) → o ≡ some r → r ≡ (t, false))
      → NeverEnds told (updated parse_int parse_status i o a)
  updated-NeverEnds a i t none n idle same = n
  updated-NeverEnds a i t (some r) n idle same =
      let e : r ≡ (t, false) = same r refl in
      rw e (record {
        no_commands = All-set HasNoCommand a.tasks i t n.no_commands idle;
        in_progress_still = n.in_progress_still;
        not_completed = n.not_completed;
        told_still = n.told_still;
      })

  handle-NeverEnds :
      (e : Event) (a : AggregateRemoteTask)
      → NeverEnds told a
      → NeverEnds told (handle parse_int parse_status e a)
  unfolding handle
  handle-NeverEnds (progress_values i values) a n = elim (Option-cases (get_elem? a.tasks i)) [
    | inl out ↦ rw (out, handle) n
    | inr (t, at) ↦
        let idle = All-get HasNoCommand a.tasks i n.no_commands at in
        rw (at, handle)
          (updated-NeverEnds a i t (progress_callback parse_int values t) n idle
            (λ r. progress_callback_idle parse_int values t r idle))
  ]
  handle-NeverEnds (status_values i values) a n = elim (Option-cases (get_elem? a.tasks i)) [
    | inl out ↦ rw (out, handle) n
    | inr (t, at) ↦
        let idle = All-get HasNoCommand a.tasks i n.no_commands at in
        rw (at, handle)
          (updated-NeverEnds a i t (status_callback parse_status values t) n idle
            (λ r. status_callback_idle parse_status values t r idle))
  ]
  handle-NeverEnds poll_turn a n = rw (n.in_progress_still, poll) n

  handle_all-NeverEnds :
      (es : List Event) (a : AggregateRemoteTask)
      → NeverEnds told a
      → NeverEnds told (handle_all parse_int parse_status es a)
  unfolding handle_all
  handle_all-NeverEnds [] a n = n
  handle_all-NeverEnds (e ∷ es) a n =
      handle_all-NeverEnds es (handle parse_int parse_status e a) (handle-NeverEnds e a n)

-- A task that is not rejected before and settles has no command and is not rejected.
call_task-settles :
    (answer : ResultCode × String) (t : RemoteTask)
    → settles answer ≡ true
    → HasNoCommand t
    → same_status t.status rejected ≡ false
    → HasNoCommand (call_task answer t) × (same_status (call_task answer t).status rejected ≡ false)
unfolding call_task
call_task-settles answer t h idle fresh = ground arith

call_all_settles :
    (answers : List (ResultCode × String))
    → all_settle answers ≡ true
    → let r = call_all answers (replicate (length answers) new_task) in
      All HasNoCommand r.0 × (r.1 ≡ false)
call_all_settles [] h = (tt, refl)
call_all_settles (answer ∷ answers) h =
    let (idle, fresh) = call_task-settles answer new_task (ground arith) refl refl in
    let (rest_idle, rest_fresh) = call_all_settles answers (ground arith) in
    rw fresh ((idle, rest_idle), rest_fresh)

abbrev pub all_ok : List (ResultCode × String) → Bool
all_ok [] = true
all_ok ((ok, details) ∷ answers) = all_ok answers
all_ok _ = false

call_all_ok :
    (answers : List (ResultCode × String))
    → all_ok answers ≡ true
    → (all_settle answers ≡ true)
      × (all_completed (call_all answers (replicate (length answers) new_task)).0 ≡ true)
unfolding call_task
call_all_ok [] h = (refl, refl)
call_all_ok ((ok, details) ∷ answers) h = call_all_ok answers h
call_all_ok ((started, details) ∷ answers) h = cc
call_all_ok ((queued_code, details) ∷ answers) h = cc
call_all_ok ((failed_code, details) ∷ answers) h = cc
call_all_ok ((unknown, details) ∷ answers) h = cc
call_all_ok ((rejected_code, details) ∷ answers) h = cc
call_all_ok ((not_allowed, details) ∷ answers) h = cc
call_all_ok ((aborted_code, details) ∷ answers) h = cc

execute_settles :
    (answers : List (ResultCode × String)) (a : AggregateRemoteTask)
    → all_settle answers ≡ true
    → a.tasks ≡ replicate (length answers) new_task
    → a.completed ≡ false
    → let r = execute_task answers a in
      NeverEnds ((in_progress, some 0) ∷ a.told) r.0
      × (r.1 ≡ true)
      × (r.0.tasks ≡ (call_all answers (replicate (length answers) new_task)).0)
unfolding execute_task
execute_settles answers a h e fresh =
    let (idle, not_rejected) = call_all_settles answers h in
    rw (e, not_rejected)
      (
        record {
          no_commands = idle;
          in_progress_still = refl;
          not_completed = fresh;
          told_still = refl;
        },
        refl,
        refl,
      )

-- When no action queues or rejects its command, so that each command ends at once, the tasks together
-- do not end: after the execution and any events and turns of the loop that waits, the status is
-- IN_PROGRESS, the task is not completed, and the callback was told only that it is in progress, even
-- when every action has succeeded and every task is completed.
pub immediate_never_ends :
    (parse_int : String → Option ℕ) (parse_status : String → Option TaskStatus)
    (answers : List (ResultCode × String)) (a : AggregateRemoteTask) (es : List Event)
    → all_settle answers ≡ true
    → a.tasks ≡ replicate (length answers) new_task
    → a.completed ≡ false
    → let (b, waits) = execute_task answers a in
      let c = handle_all parse_int parse_status es b in
      (waits ≡ true)
      × (c.status ≡ in_progress)
      × (c.completed ≡ false)
      × (c.told ≡ (in_progress, some 0) ∷ a.told)
      × (all_ok answers ≡ true → all_completed b.tasks ≡ true)
immediate_never_ends parse_int parse_status answers a es h e fresh =
    let (never, waits, tasks) = execute_settles answers a h e fresh in
    let still =
      handle_all-NeverEnds parse_int parse_status ((in_progress, some 0) ∷ a.told) es
        (execute_task answers a).0 never in
    (
      waits,
      still.in_progress_still,
      still.not_completed,
      still.told_still,
      λ good. ap all_completed tasks ∙ (call_all_ok answers good).1,
    )
