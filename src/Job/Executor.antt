-- ===== src/Job/Executor.antt =====
-- How the handlers of src/ska_pst_lmc/job/task_executor.py run a task to its end. `Ends` says with
-- which outcome, and after which commands to devices, a task can end; what the devices and the
-- lambdas do is a parameter. A task that can never end has no derivation.
use ska_pst_lmc.Prelude.{
  ℕ, ◌≡◌, ◌⊎◌, Bool, true, false, Option, none, some, List, [], ◌∷◌, ◌++◌, String, All,
}
use ska_pst_lmc.Job.{
  Task, Tasks, noop, lambda, sequential, parallel, device_command, nil, cons, Outcome, success,
  failure, TaskContext,
}
use ska_pst_lmc.Job.Parallel.{ParallelTaskContext, Subtask, running, submitted, Steps}

-- The third list is the first two merged, each in its own order.
pub data Merge {A : Type 0} : List A → List A → List A → Type 0 where
  merge_nil : Merge [] [] []
  merge_left : {x : A} {xs ys zs : List A} → Merge xs ys zs → Merge (x ∷ xs) ys (x ∷ zs)
  merge_right : {y : A} {xs ys zs : List A} → Merge xs ys zs → Merge xs (y ∷ ys) (y ∷ zs)

pub data In {A : Type 0} (a : A) : List A → Type 0 where
  first : {x : A} {xs : List A} → x ≡ a → In a (x ∷ xs)
  later : {x : A} {xs : List A} → In a xs → In a (x ∷ xs)

-- The outcome that a context was signalled with.
abbrev pub outcome : {E R : Type 0} → TaskContext E R → Outcome E
outcome c = elim c.exception [ none ↦ success | some e ↦ failure e ]

-- One command for each device, as `_handle_device_command_task` makes them of a task of several.
abbrev pub one_each : {D A L : Type 0} → List D → A → String → Tasks D A L
one_each [] action name = nil
one_each (d ∷ ds) action name = cons (device_command (d ∷ []) action name) (one_each ds action name)

abbrev pub pairs : {D A : Type 0} → List D → A → List (D × A)
pairs [] a = []
pairs (d ∷ ds) a = (d, a) ∷ pairs ds a

abbrev pub length_tasks : {D A L : Type 0} → Tasks D A L → ℕ
length_tasks nil = 0
length_tasks (cons t ts) = ℕ.suc (length_tasks ts)

-- The commands that a task can send, and the lambdas that it can call, each in the task's order.
unfoldable mutual
  pub commands : {D A L : Type 0} → Task D A L → List (D × A)
  commands noop = []
  commands (lambda f name) = []
  commands (sequential ts) = commands_all ts
  commands (parallel ts) = commands_all ts
  commands (device_command ds action name) = pairs ds action

  pub commands_all : {D A L : Type 0} → Tasks D A L → List (D × A)
  commands_all nil = []
  commands_all (cons t ts) = commands t ++ commands_all ts

unfoldable mutual
  pub lambdas : {D A L : Type 0} → Task D A L → List L
  lambdas noop = []
  lambdas (lambda f name) = f ∷ []
  lambdas (sequential ts) = lambdas_all ts
  lambdas (parallel ts) = lambdas_all ts
  lambdas (device_command ds action name) = []

  pub lambdas_all : {D A L : Type 0} → Tasks D A L → List L
  lambdas_all nil = []
  lambdas_all (cons t ts) = lambdas t ++ lambdas_all ts

-- `busy` says that the one worker of the sequential queue runs an ancestor of the task. It takes
-- nothing from that queue before the task has ended, so that a sequential task with subtasks, which
-- would wait for it, has no derivation then. The queue and its worker are in the model only by this.
mutual
  pub data Ends (D A L E R : Type 0) (answers : D → A → Outcome E → Type 0)
      (calls : L → Outcome E → Type 0) : Bool → Task D A L → List (D × A) → Outcome E → Type 0 where
    ends_noop : {busy : Bool} → Ends D A L E R answers calls busy noop [] success
    ends_lambda :
        {busy : Bool} {f : L} {name : Option String} {o : Outcome E}
        → calls f o
        → Ends D A L E R answers calls busy (lambda f name) [] o
    ends_no_device :
        {busy : Bool} {action : A} {name : String}
        → Ends D A L E R answers calls busy (device_command [] action name) [] success
    ends_one_device :
        {busy : Bool} {d : D} {action : A} {name : String} {o : Outcome E}
        → answers d action o
        → Ends D A L E R answers calls busy
            (device_command (d ∷ []) action name)
            ((d, action) ∷ [])
            o
    ends_devices :
        {busy : Bool} {d₁ d₂ : D} {ds : List D} {action : A} {name : String} {o : Outcome E}
        {sent : List (D × A)}
        → Ends D A L E R answers calls busy (parallel (one_each (d₁ ∷ d₂ ∷ ds) action name)) sent o
        → Ends D A L E R answers calls busy (device_command (d₁ ∷ d₂ ∷ ds) action name) sent o
    ends_no_subtask : {busy : Bool} → Ends D A L E R answers calls busy (sequential nil) [] success
    ends_in_turn :
        {t : Task D A L} {ts : Tasks D A L} {sent : List (D × A)} {o : Outcome E}
        → InTurn D A L E R answers calls (cons t ts) sent o
        → Ends D A L E R answers calls false (sequential (cons t ts)) sent o
    ends_parallel :
        {busy : Bool} {ts : Tasks D A L} {sent : List (D × A)} {k : ℕ} {p : ParallelTaskContext E R}
        → Steps (submitted (length_tasks ts)) k p
        → p.parent.evt ≡ true
        → Together D A L E R answers calls busy ts p.subtasks sent
        → Ends D A L E R answers calls busy (parallel ts) sent (outcome p.parent)

  -- The loop of `_handle_sequential_task`: a subtask that fails is the last.
  pub data InTurn (D A L E R : Type 0) (answers : D → A → Outcome E → Type 0)
      (calls : L → Outcome E → Type 0) : Tasks D A L → List (D × A) → Outcome E → Type 0 where
    turn_nil : InTurn D A L E R answers calls nil [] success
    turn_failed :
        {t : Task D A L} {ts : Tasks D A L} {sent : List (D × A)} {e : E}
        → Ends D A L E R answers calls true t sent (failure e)
        → InTurn D A L E R answers calls (cons t ts) sent (failure e)
    turn_done :
        {t : Task D A L} {ts : Tasks D A L} {sent sent' : List (D × A)} {o : Outcome E}
        → Ends D A L E R answers calls true t sent success
        → InTurn D A L E R answers calls ts sent' o
        → InTurn D A L E R answers calls (cons t ts) (sent ++ sent') o

  -- The subtasks when their parent is signalled: ended with what their contexts hold, or not, and
  -- then with some of their commands sent if a worker has taken them.
  pub data Together (D A L E R : Type 0) (answers : D → A → Outcome E → Type 0)
      (calls : L → Outcome E → Type 0)
      : Bool → Tasks D A L → List (Subtask E R) → List (D × A) → Type 0 where
    together_nil : {busy : Bool} → Together D A L E R answers calls busy nil [] []
    together_ended :
        {busy : Bool} {t : Task D A L} {ts : Tasks D A L} {s : Subtask E R}
        {ss : List (Subtask E R)} {own rest sent : List (D × A)}
        → s.context.evt ≡ true
        → Ends D A L E R answers calls busy t own (outcome s.context)
        → Together D A L E R answers calls busy ts ss rest
        → Merge own rest sent
        → Together D A L E R answers calls busy (cons t ts) (s ∷ ss) sent
    together_open :
        {busy : Bool} {t : Task D A L} {ts : Tasks D A L} {s : Subtask E R}
        {ss : List (Subtask E R)} {own rest sent : List (D × A)}
        → s.context.evt ≡ false
        → (s.phase ≡ running) ⊎ (own ≡ [])
        → All (λ c. In c (commands t)) own
        → Together D A L E R answers calls busy ts ss rest
        → Merge own rest sent
        → Together D A L E R answers calls busy (cons t ts) (s ∷ ss) sent
