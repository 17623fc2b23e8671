-- ===== src/Job.antt =====
-- Tasks and the contexts that track them (src/ska_pst_lmc/job/task.py). Device proxies, the actions
-- on them and the lambdas are types of the caller's; exceptions and results too.
mod Examples
pub mod Parallel
pub mod Device
pub mod Executor
pub mod ExecutorSound
pub mod ExecutorOrder
use ska_pst_lmc.Prelude.{
  ◌≡◌, Bool, true, false, not, ◌&&◌, Option, none, some, List, [], ◌∷◌, String,
}

-- `Task`; a list of subtasks is a type of the block. A `LambdaTask` and a `DeviceCommandTask` carry
-- their name.
mutual
  pub data Task (D A L : Type 0) : Type 0 where
    noop : Task D A L
    lambda : L → Option String → Task D A L
    sequential : Tasks D A L → Task D A L
    parallel : Tasks D A L → Task D A L
    device_command : List D → A → String → Task D A L

  pub data Tasks (D A L : Type 0) : Type 0 where
    nil : Tasks D A L
    cons : Task D A L → Tasks D A L → Tasks D A L

-- How the handler of a task ends.
pub data Outcome (E : Type 0) : Type 0 where
  success : Outcome E
  failure : E → Outcome E

-- `evt` is the flag of the `threading.Event`; a result that is `None` is `none`.
pub record TaskContext (E R : Type 0) : Type 0 where
  pub evt : Bool
  pub result : Option R
  pub exception : Option E

module _ {E R : Type 0} where
  abbrev pub new_context : TaskContext E R
  new_context = record { evt = false; result = none; exception = none }

  abbrev pub signal_complete : Option R → TaskContext E R → TaskContext E R
  signal_complete result c = record c { result = result; evt = true }

  abbrev pub signal_failed : E → TaskContext E R → TaskContext E R
  signal_failed e c = record c { exception = some e; evt = true }

  abbrev pub failed : TaskContext E R → Bool
  failed c = elim c.exception [ none ↦ false | some e ↦ true ]

  abbrev pub completed : TaskContext E R → Bool
  completed c = c.evt && not (failed c)

module _ {E R : Type 0} (runtime_error : String → E) where
  -- The message becomes a `RuntimeError`.
  abbrev pub signal_failed_from_str : String → TaskContext E R → TaskContext E R
  signal_failed_from_str msg c = signal_failed (runtime_error msg) c
