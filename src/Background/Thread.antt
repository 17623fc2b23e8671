-- ===== src/Background/Thread.antt =====
-- A background task and its thread (src/ska_pst_lmc/util/background_task.py, `BackgroundTask`): the
-- calls of its one owner and the steps of the thread, in any order the two allow. A call that waits is a
-- step before the wait and one after it. Three groups of lines are one step each: those that end `_run`,
-- the lines of `run`, and the test of `_thread` in `_join` with the wait after it. Runs in which the
-- other side acts between such lines are not in the model, nor what comes of them: `run` on a task
-- whose thread has set STOPPED and not yet `_completed`, and a `join` on a thread that is just gone.
use ska_pst_lmc.Prelude.{ℕ, Bool, true, false, Option, none, some, List, [], ◌∷◌, if◌then◌else◌}
use ska_pst_lmc.Background.{
  BackgroundTask, RunState, stopped, starting, running, stopping, errored, is_running, task_running,
  new_task, run,
}

-- Where the thread is: none yet, started and before the first line of `_run`, before the test of its
-- loop, in or after the action, and over.
pub data Life : Type 0 where
  idle begun looping acting finished : Life

-- What the action does: it returns, or it raises.
pub data Outcome : Type 0 where
  returns : Outcome
  raises : ℕ → Outcome

-- `joining` is whether the owner waits in `_join`, which `stop` calls.
pub record World : Type 0 where
  pub task : BackgroundTask
  pub life : Life
  pub joining : Bool

abbrev pub new_world : World
new_world = record { task = new_task; life = idle; joining = false }

-- The owner calls `run` and `stop` and returns from `_join`. The thread enters `_run`, tests its loop
-- and does the rest of a turn.
pub data Event : Type 0 where
  call_run enter test_loop call_stop return_join : Event
  act : Outcome → Event

-- `BackgroundTask.has_errored`
abbrev pub has_errored : BackgroundTask → Bool
has_errored t = elim t.state [
  | stopped ↦ false
  | starting ↦ false
  | running ↦ false
  | stopping ↦ false
  | errored ↦ true
]

-- `BackgroundTask._set_state`
abbrev pub set_state : RunState → BackgroundTask → BackgroundTask
set_state s t = record t { state = s }

-- The ends that `_run` and `_join` share: `_completed = True` and `_thread = None`.
abbrev pub complete : BackgroundTask → BackgroundTask
complete t = record t { completed = true; has_thread = false }

-- `BackgroundTask.run`, with the thread it starts. `none` is the failed assertion.
abbrev pub step_run : World → Option World
unfolding run
step_run w = elim (run w.task) [
  | none ↦ none
  | some t ↦ some (if task_running w.task then w else record w { task = t; life = begun })
]

-- The rest of a turn of `_run`, after the action.
abbrev pub after_action : Bool → Outcome → World → World
after_action periodic returns w =
    if periodic
    then record w { life = looping }
    else record w { task = complete (set_state stopped w.task); life = finished }
after_action periodic (raises e) w = record w {
  task = complete (record (set_state errored w.task) { exception = some e });
  life = finished;
}

-- The first part of `BackgroundTask.stop`.
abbrev pub request_stop : World → World
request_stop w =
    if is_running w.task.state
    then record w { task = set_state stopping w.task; joining = true }
    else w

-- The part of `BackgroundTask._join` after the thread has ended, when the join has not raised.
abbrev pub joined : BackgroundTask → BackgroundTask
joined t =
    if t.has_thread
    then (if has_errored t then complete t else complete (set_state stopped t))
    else t

-- A step; `none` where it cannot happen: the owner waits, the thread is elsewhere, or `run` fails.
unfoldable pub step : Bool → Event → World → Option World
step periodic call_run w = if w.joining then none else step_run w
step periodic enter w = elim w.life [
  | idle ↦ none
  | begun ↦ some (record w { task = set_state running w.task; life = looping })
  | looping ↦ none
  | acting ↦ none
  | finished ↦ none
]
step periodic test_loop w = elim w.life [
  | idle ↦ none
  | begun ↦ none
  | looping ↦ some (record w { life = if task_running w.task then acting else finished })
  | acting ↦ none
  | finished ↦ none
]
step periodic (act o) w = elim w.life [
  | idle ↦ none
  | begun ↦ none
  | looping ↦ none
  | acting ↦ some (after_action periodic o w)
  | finished ↦ none
]
step periodic call_stop w = if w.joining then none else some (request_stop w)
step periodic return_join w =
    if w.joining
    then elim w.life [
      | idle ↦ none
      | begun ↦ none
      | looping ↦ none
      | acting ↦ none
      | finished ↦ some (record w { task = joined w.task; joining = false })
    ]
    else none

unfoldable pub steps : Bool → List Event → World → Option World
steps periodic [] w = some w
steps periodic (e ∷ es) w = elim (step periodic e w) [
  | none ↦ none
  | some next ↦ steps periodic es next
]
