-- ===== src/Beam/Success.antt =====
-- When the BEAM changes its own state (src/ska_pst_lmc/beam/beam_component_manager.py, `_RemoteJob` and
-- the completion callbacks).
use ska_pst_lmc.Prelude.{
  ◌≡◌, refl, ap, ◌∙◌, ◌⊎◌, inl, inr, Bool, true, false, Option, List, [], ◌∷◌, All, string_key,
  Option-cases, arith,
}
use ska_pst_lmc.Effects.{
  Result-cases, raised, ◌>>=◌, ◌>>◌, then_returned, then_raised, try_returned, try_raised,
  try_except, from_result,
}
use ska_pst_lmc.Job.{Task, Outcome, success, failure}
use ska_pst_lmc.Job.Executor.{In, first, later, commands, Ends}
use ska_pst_lmc.Job.ExecutorSound.{Succeeds, job_success}
use ska_pst_lmc.Beam.{
  BeamComponentManager, Call, Device, Action, Lambda, abort_in_progress, write_scan_config,
  task_callback, TaskStatus, in_progress_status, failed_status,
}
use ska_pst_lmc.Beam.Commands.{Values, Beam, report_safely, run_lambdas, remote_job}
use ska_pst_lmc.Beam.Reports.{is_report}

-- From one manager to the other nothing has changed and nothing was called but reports of the status.
pub record OnlyReports {V : Type 0} (m q : BeamComponentManager V) : Type 0 where
  pub unchanged : record q { calls = m.calls } ≡ m
  pub only : (c : Call V) → is_report c ≡ false → In c q.calls → In c m.calls

module _ {V : Type 0} where
  OnlyReports-same : (m : BeamComponentManager V) → OnlyReports m m
  OnlyReports-same m = record { unchanged = refl; only = λ c n i. i }

  OnlyReports-after :
      (a b c : BeamComponentManager V) → OnlyReports a b → OnlyReports b c → OnlyReports a c
  OnlyReports-after a b c p q = record {
    unchanged =
        ap {A = BeamComponentManager V} (λ x. record x { calls = a.calls }) q.unchanged
        ∙ p.unchanged;
    only = λ x n i. p.only x n (q.only x n i);
  }

  OnlyReports-report :
      (status : TaskStatus) (m : BeamComponentManager V)
      → OnlyReports m (record m { calls = task_callback status ∷ m.calls })
  OnlyReports-report status m = record {
    unchanged = refl;
    only = λ c n i. elim i [ first e ↦ absurd (ground arith) | later k ↦ k ];
  }

module _ {V E : Type 0} (v : Values V E) (raises : Call V → Option E) (has_callback : Bool) where
  abbrev Reporting : {A : Type 0} → Beam v raises has_callback A → Type 0
  Reporting act = (m : BeamComponentManager V) → OnlyReports m (act m).1

  Reporting-then :
      {A B : Type 0} (a : Beam v raises has_callback A) (k : A → Beam v raises has_callback B)
      → Reporting a
      → ((x : A) → Reporting (k x))
      → Reporting (a >>= k)
  Reporting-then a k ra rk m = elim (Result-cases (a m).0) [
    | inl (x, e) ↦
        rw (then_returned a k m e)
          (OnlyReports-after m (a m).1 (k x (a m).1).1 (ra m) (rk x (a m).1))
    | inr (x, e) ↦ rw (then_raised a k m e) (ra m)
  ]

  Reporting-try :
      {A : Type 0} (a : Beam v raises has_callback A) (h : E → Beam v raises has_callback A)
      → Reporting a
      → ((x : E) → Reporting (h x))
      → Reporting (try_except a h)
  Reporting-try a h ra rh m = elim (Result-cases (a m).0) [
    | inl (x, e) ↦ rw (try_returned a h m e) (ra m)
    | inr (x, e) ↦
        rw (try_raised a h m e) (OnlyReports-after m (a m).1 (h x (a m).1).1 (ra m) (rh x (a m).1))
  ]

module _ {V E : Type 0} (v : Values V E) (raises : Call V → Option E) where
  report-Reporting :
      (has_callback : Bool) (status : TaskStatus)
      → Reporting v raises has_callback (report_safely v raises has_callback status)
  report-Reporting false status m = OnlyReports-same m
  report-Reporting true status m = elim (Option-cases (raises (task_callback status))) [
    | inl silent ↦ rw silent (OnlyReports-report status m)
    | inr (x, loud) ↦ rw loud (OnlyReports-report status m)
  ]

  lambdas-Reporting :
      (has_callback : Bool) (ran : List Lambda)
      → Reporting v raises has_callback (run_lambdas v raises has_callback ran)
  lambdas-Reporting has_callback [] m = OnlyReports-same m
  lambdas-Reporting has_callback (abort_in_progress ∷ ran) m =
      Reporting-then v raises has_callback (report_safely v raises has_callback in_progress_status)
        (λ y. run_lambdas v raises has_callback ran)
        (report-Reporting has_callback in_progress_status) (λ y. lambdas-Reporting has_callback ran)
        m
  lambdas-Reporting has_callback (write_scan_config scan_id ∷ ran) m =
      lambdas-Reporting has_callback ran m

  failed-Reporting :
      (has_callback : Bool) (ran : List Lambda) (e : E)
      (completion : Beam v raises has_callback Unit)
      → Reporting v raises has_callback
          (remote_job v raises has_callback ran (failure e) completion)
  unfolding remote_job
  failed-Reporting has_callback ran e completion =
      let during = run_lambdas v raises has_callback ran in
      let fails : Beam v raises has_callback Unit = from_result (raised e) in
      let handler : E → Beam v raises has_callback Unit =
        λ x. report_safely v raises has_callback failed_status in
      Reporting-then v raises has_callback (report_safely v raises has_callback in_progress_status)
        (λ y. try_except (during >> fails) handler)
        (report-Reporting has_callback in_progress_status)
        (λ y.
          Reporting-try v raises has_callback (during >> fails) handler
            (Reporting-then v raises has_callback during (λ z. fails)
              (lambdas-Reporting has_callback ran) (λ z m. OnlyReports-same m))
            (λ x. report-Reporting has_callback failed_status))

  -- However the job of a command runs, and whatever its completion callback does: either every command
  -- of the job was answered with success, or the BEAM's own state is what it was when the job was
  -- submitted, and since then it has called nothing but the task's callback. (Off has unsubscribed from
  -- its events before it submits its job.)
  pub state_changes_need_success :
      {R : Type 0} {answers : Device → Action → Outcome E → Type 0}
      {calls : Lambda → Outcome E → Type 0} (has_callback busy : Bool)
      (job : Task Device Action Lambda) (sent : List (Device × Action)) (ran : List Lambda)
      (o : Outcome E) (completion : Beam v raises has_callback Unit) (m : BeamComponentManager V)
      → Ends Device Action Lambda E R answers calls busy job sent o
      → let q = (remote_job v raises has_callback ran o completion m).1 in
        All (Succeeds answers) (commands job)
        ⊎ ((record q { calls = m.calls } ≡ m)
            × ((c : Call V) → is_report c ≡ false → In c q.calls → In c m.calls))
  state_changes_need_success has_callback busy job sent ran success completion m run =
      inl (job_success busy job sent run)
  state_changes_need_success has_callback busy job sent ran (failure e) completion m run =
      let k = failed-Reporting has_callback ran e completion m in inr (k.unchanged, k.only)
