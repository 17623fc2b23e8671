-- ===== src/Background.antt =====
-- Background tasks (src/ska_pst_lmc/util/background_task.py): the states of a task, and the processor
-- that keeps tasks and reaps them. Tasks and exceptions are numbers that name the objects.
pub mod Reaping
pub mod Thread
pub mod Invariant
pub mod Ends
mod Examples
use ska_pst_lmc.Prelude.{
  ℕ, zero, suc, Bool, true, false, Option, none, some, List, [], ◌∷◌, ◌++◌, length, get_elem?,
  nat_beq, if◌then◌else◌,
}

pub data RunState : Type 0 where
  stopped starting running stopping errored : RunState

-- `RunState.running`
abbrev pub is_running : RunState → Bool
is_running starting = true
is_running running = true
is_running _ = false

-- `has_thread` is whether `_thread` is set.
pub record BackgroundTask : Type 0 where
  pub state : RunState
  pub has_thread : Bool
  pub exception : Option ℕ
  pub completed : Bool

-- `BackgroundTask.running`
abbrev pub task_running : BackgroundTask → Bool
task_running t = if t.has_thread then is_running t.state else false

abbrev pub new_task : BackgroundTask
new_task = record { state = stopped; has_thread = false; exception = none; completed = false }

-- `BackgroundTask.run`; `none` is the failed assertion.
unfoldable pub run : BackgroundTask → Option BackgroundTask
run t =
    if t.completed
    then none
    else if task_running t
    then some t
    else some (record t { state = starting; has_thread = true })

-- `list.remove`
abbrev pub remove : ℕ → List ℕ → List ℕ
remove t [] = []
remove t (x ∷ xs) = let rest = remove t xs in if nat_beq x t then xs else x ∷ rest

-- The loop of `_reap`: Python's iterator keeps an index into the list, which is read anew each time.
-- `fuel` bounds the number of its turns.
unfoldable pub reap_from : (ℕ → BackgroundTask) → ℕ → ℕ → List ℕ → List ℕ
reap_from task zero i tasks = tasks
reap_from task (suc fuel) i tasks = elim (get_elem? tasks i) [
  | none ↦ tasks
  | some t ↦ reap_from task fuel (suc i) (if task_running (task t) then tasks else remove t tasks)
]

unfoldable pub reap : (ℕ → BackgroundTask) → List ℕ → List ℕ
unfolding reap_from
reap task tasks = reap_from task (length tasks) 0 tasks
