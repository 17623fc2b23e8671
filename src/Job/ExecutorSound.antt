-- ===== src/Job/ExecutorSound.antt =====
-- What the end of a job says of its commands (src/ska_pst_lmc/job/task_executor.py).
use mathlib.Core.Path.{subst}
use ska_pst_lmc.Prelude.{
  ℕ, zero, suc, ◌≡◌, refl, ap, inl, inr, Bool, true, false, none, some, List, [], ◌∷◌, ◌++◌, String,
  All, All-append, get_elem?, arith,
}
use ska_pst_lmc.Job.{Task, Tasks, parallel, nil, Outcome, success, failure}
use ska_pst_lmc.Job.Parallel.{ParallelTaskContext, Subtask, submitted, Steps, all_completed}
use ska_pst_lmc.Job.Parallel.Slots.{Blamed}
use ska_pst_lmc.Job.Parallel.Ends.{
  parallel_outcome, parallel_unsignalled, parallel_empty_never_ends,
}
use ska_pst_lmc.Job.Executor.{
  In, first, later, outcome, one_each, pairs, commands, commands_all, lambdas, lambdas_all, Ends,
  ends_noop, ends_lambda, ends_no_device, ends_one_device, ends_devices, ends_no_subtask,
  ends_in_turn, ends_parallel, InTurn, turn_nil, turn_failed, turn_done, Together, together_nil,
  together_ended, together_open,
}

abbrev pub Succeeds : {D A E : Type 0} → (D → A → Outcome E → Type 0) → D × A → Type 0
Succeeds answers c = answers c.0 c.1 success

-- One of the commands or of the lambdas ended with the exception.
pub data Caused {D A L E : Type 0} (answers : D → A → Outcome E → Type 0)
    (calls : L → Outcome E → Type 0) (e : E) (cs : List (D × A)) (fs : List L) : Type 0 where
  by_command : {c : D × A} → In c cs → answers c.0 c.1 (failure e) → Caused answers calls e cs fs
  by_lambda : {f : L} → In f fs → calls f (failure e) → Caused answers calls e cs fs

module _ {A : Type 0} {a : A} where
  pub In-left : (xs ys : List A) → In a xs → In a (xs ++ ys)
  In-left [] ys i = elim i [ ]
  In-left (x ∷ xs) ys (first e) = first e
  In-left (x ∷ xs) ys (later i) = later (In-left xs ys i)

  pub In-right : (xs ys : List A) → In a ys → In a (xs ++ ys)
  In-right [] ys i = i
  In-right (x ∷ xs) ys i = later (In-right xs ys i)

module _ {E R : Type 0} where
  parallel_success :
      (n k : ℕ) (p : ParallelTaskContext E R)
      → Steps (submitted n) k p
      → p.parent.evt ≡ true
      → outcome p.parent ≡ success
      → all_completed p.subtasks ≡ true
  parallel_success n k p run set e = elim (parallel_outcome n k p run set) [
    | inl clean ↦ clean.1
    | inr (x, raised, _) ↦ ground arith
  ]

  parallel_failure :
      (n k : ℕ) (p : ParallelTaskContext E R) (e : E)
      → Steps (submitted n) k p
      → p.parent.evt ≡ true
      → outcome p.parent ≡ failure e
      → Blamed e p.subtasks
  parallel_failure n k p e run set f = elim (parallel_outcome n k p run set) [
    | inl clean ↦ ground arith
    | inr (x, raised, blamed) ↦ let same : x ≡ e = ground arith in rw same at blamed
  ]

pub one_each-pairs :
    {D A : Type 0} (L : Type 0) (ds : List D) (a : A) (name : String)
    → commands_all (one_each {D = D} {A = A} {L = L} ds a name) ≡ pairs ds a
unfolding commands commands_all
one_each-pairs L [] a name = refl
one_each-pairs L (d ∷ ds) a name = ap (λ l. (d, a) ∷ l) (one_each-pairs L ds a name)

one_each-lambdas :
    {D A : Type 0} (L : Type 0) (ds : List D) (a : A) (name : String)
    → lambdas_all (one_each {D = D} {A = A} {L = L} ds a name) ≡ []
unfolding lambdas lambdas_all
one_each-lambdas L [] a name = refl
one_each-lambdas L (d ∷ ds) a name = one_each-lambdas L ds a name

module _ {D A L E : Type 0} {answers : D → A → Outcome E → Type 0}
    {calls : L → Outcome E → Type 0} where
  Caused-left :
      (e : E) (cs cs' : List (D × A)) (fs fs' : List L)
      → Caused answers calls e cs fs
      → Caused answers calls e (cs ++ cs') (fs ++ fs')
  Caused-left e cs cs' fs fs' (by_command i h) = by_command (In-left cs cs' i) h
  Caused-left e cs cs' fs fs' (by_lambda i h) = by_lambda (In-left fs fs' i) h

  Caused-right :
      (e : E) (cs cs' : List (D × A)) (fs fs' : List L)
      → Caused answers calls e cs' fs'
      → Caused answers calls e (cs ++ cs') (fs ++ fs')
  Caused-right e cs cs' fs fs' (by_command i h) = by_command (In-right cs cs' i) h
  Caused-right e cs cs' fs fs' (by_lambda i h) = by_lambda (In-right fs fs' i) h

module _ {D A L E R : Type 0} {answers : D → A → Outcome E → Type 0}
    {calls : L → Outcome E → Type 0} where
  mutual
    unfolding commands commands_all

    pub Ends-success :
        {busy : Bool} {t : Task D A L} {sent : List (D × A)} {o : Outcome E}
        → Ends D A L E R answers calls busy t sent o
        → o ≡ success
        → All (Succeeds answers) (commands t)
    Ends-success ends_noop e = tt
    Ends-success (ends_lambda c) e = tt
    Ends-success ends_no_device e = tt
    Ends-success (ends_one_device {d = d} {action = a} h) e = (rw e at h, tt)
    Ends-success (ends_devices {d₁ = x} {d₂ = y} {ds = ds} {action = a} {name = n} h) e =
        subst (All (Succeeds answers)) (one_each-pairs L (x ∷ y ∷ ds) a n) (Ends-success h e)
    Ends-success ends_no_subtask e = tt
    Ends-success (ends_in_turn h) e = turn_success h e
    Ends-success (ends_parallel run set h) e = Together-success h (parallel_success _ _ _ run set e)

    pub turn_success :
        {ts : Tasks D A L} {sent : List (D × A)} {o : Outcome E}
        → InTurn D A L E R answers calls ts sent o
        → o ≡ success
        → All (Succeeds answers) (commands_all ts)
    turn_success turn_nil e = tt
    turn_success (turn_failed h) e = cc
    turn_success (turn_done {t = t} {ts = ts} h hs) e =
        All-append (Succeeds answers) (commands t) (commands_all ts) (Ends-success h refl)
          (turn_success hs e)

    Together-success :
        {busy : Bool} {ts : Tasks D A L} {ss : List (Subtask E R)} {sent : List (D × A)}
        → Together D A L E R answers calls busy ts ss sent
        → all_completed ss ≡ true
        → All (Succeeds answers) (commands_all ts)
    Together-success together_nil e = tt
    Together-success (together_ended {t = t} {ts = ts} {s = s} set h hs m) e =
        All-append (Succeeds answers) (commands t) (commands_all ts) (Ends-success h (ground arith))
          (Together-success hs (ground arith))
    Together-success (together_open {s = s} unset r i hs m) e = ground arith

  mutual
    unfolding commands commands_all lambdas lambdas_all

    Ends-failure :
        {busy : Bool} {t : Task D A L} {sent : List (D × A)} {o : Outcome E} {e : E}
        → Ends D A L E R answers calls busy t sent o
        → o ≡ failure e
        → Caused answers calls e (commands t) (lambdas t)
    Ends-failure ends_noop f = cc
    Ends-failure (ends_lambda c) f = by_lambda (first refl) (rw f at c)
    Ends-failure ends_no_device f = cc
    Ends-failure (ends_one_device h) f = by_command (first refl) (rw f at h)
    Ends-failure (ends_devices {d₁ = x} {d₂ = y} {ds = ds} {action = a} {name = n} h) f =
        rw (one_each-pairs L (x ∷ y ∷ ds) a n, one_each-lambdas L (x ∷ y ∷ ds) a n) at
          (Ends-failure h f)
    Ends-failure ends_no_subtask f = cc
    Ends-failure (ends_in_turn h) f = turn_failure h f
    Ends-failure {e = e} (ends_parallel {p = p} run set h) f =
        let (i, s, at, blame) = parallel_failure _ _ p e run set f in
        Together-failure i s h (parallel_unsignalled _ _ p run) at blame

    turn_failure :
        {ts : Tasks D A L} {sent : List (D × A)} {o : Outcome E} {e : E}
        → InTurn D A L E R answers calls ts sent o
        → o ≡ failure e
        → Caused answers calls e (commands_all ts) (lambdas_all ts)
    turn_failure turn_nil f = cc
    turn_failure {e = e} (turn_failed {t = t} {ts = ts} h) f =
        Caused-left e (commands t) (commands_all ts) (lambdas t) (lambdas_all ts) (Ends-failure h f)
    turn_failure {e = e} (turn_done {t = t} {ts = ts} h hs) f =
        Caused-right e (commands t) (commands_all ts) (lambdas t) (lambdas_all ts)
          (turn_failure hs f)

    Together-failure :
        {busy : Bool} {ts : Tasks D A L} {ss : List (Subtask E R)} {sent : List (D × A)} {e : E}
        (i : ℕ) (s : Subtask E R)
        → Together D A L E R answers calls busy ts ss sent
        → All (λ s. s.context.evt ≡ false → s.context.exception ≡ none) ss
        → get_elem? ss i ≡ some s
        → s.context.exception ≡ some e
        → Caused answers calls e (commands_all ts) (lambdas_all ts)
    Together-failure i s together_nil u at blame = cc
    Together-failure {e = e} zero s (together_ended {t = t} {ts = ts} {s = x} set h hs m) u at
          blame =
        Caused-left e (commands t) (commands_all ts) (lambdas t) (lambdas_all ts)
          (Ends-failure h (ground arith))
    Together-failure {e = e} (suc i) s (together_ended {t = t} {ts = ts} set h hs m) u at blame =
        Caused-right e (commands t) (commands_all ts) (lambdas t) (lambdas_all ts)
          (Together-failure i s hs u.1 at blame)
    Together-failure zero s (together_open {s = x} unset r own hs m) u at blame =
        let q = u.0 unset in ground arith
    Together-failure {e = e} (suc i) s (together_open {t = t} {ts = ts} unset r own hs m) u at
          blame =
        Caused-right e (commands t) (commands_all ts) (lambdas t) (lambdas_all ts)
          (Together-failure i s hs u.1 at blame)

  -- If a job ends without an exception, every command of it was answered with success, whatever the
  -- order in which the workers ran.
  pub job_success :
      (busy : Bool) (t : Task D A L) (sent : List (D × A))
      → Ends D A L E R answers calls busy t sent success
      → All (Succeeds answers) (commands t)
  job_success busy t sent h = Ends-success h refl

  -- If a job ends with an exception, it is the one with which a command of the job was answered, or
  -- which a lambda of the job raised.
  pub job_failure :
      (busy : Bool) (t : Task D A L) (sent : List (D × A)) (e : E)
      → Ends D A L E R answers calls busy t sent (failure e)
      → Caused answers calls e (commands t) (lambdas t)
  job_failure busy t sent e h = Ends-failure h refl

  -- A parallel task with no subtask never ends.
  pub empty_parallel_blocks :
      (busy : Bool) (sent : List (D × A)) (o : Outcome E)
      → ¬ Ends D A L E R answers calls busy (parallel nil) sent o
  empty_parallel_blocks busy sent o (ends_parallel run set h) =
      cc (parallel_empty_never_ends _ _ run)
