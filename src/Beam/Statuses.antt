-- ===== src/Beam/Statuses.antt =====
-- How often the BEAM reports the end of a command
-- (src/ska_pst_lmc/beam/beam_component_manager.py, `_RemoteJob` and the completion callbacks).
use ska_pst_lmc.Prelude.{
  String, ◌≡◌, refl, ap, ◌∙◌, ◌⊎◌, inr, true, Option, none, List, [], ◌∷◌, ◌++◌, string_key,
}
use ska_pst_lmc.Effects.{
  returned, raised, ◌>>◌, then_returned, try_same, try_returned, try_raised, try_except,
  from_result,
}
use ska_pst_lmc.Job.{Outcome, success, failure}
use ska_pst_lmc.Beam.{
  Lambda, abort_in_progress, write_scan_config, BeamComponentManager, Call, task_callback,
  handle_fault, TaskStatus, in_progress_status, completed_status, failed_status,
}
use ska_pst_lmc.Beam.Commands.{Values, Beam, report, run_lambdas, remote_job}
use ska_pst_lmc.Beam.Reports.{statuses, reports, silent, Finishes, seen, report-statuses}
use ska_pst_lmc.Beam.Completions.{
  Command, on, off, standby, reset, deconfigure_scan, stop_scan, abort, obsreset, configure_scan,
  start_scan, go_to_fault, lambdas_of, completion, Finishes-completion,
}

-- An IN_PROGRESS for each lambda task of `abort`.
abbrev progress : List Lambda → List TaskStatus
progress [] = []
progress (abort_in_progress ∷ ran) = in_progress_status ∷ progress ran
progress (write_scan_config scan_id ∷ ran) = progress ran

-- The reports before the final one.
abbrev pub started : {V E : Type 0} → Command V E → List TaskStatus
started abort = in_progress_status ∷ in_progress_status ∷ []
started _ = in_progress_status ∷ []

progress-shift :
    (ran : List Lambda) (l : List TaskStatus)
    → progress ran ++ in_progress_status ∷ l ≡ in_progress_status ∷ progress ran ++ l
progress-shift [] l = refl
progress-shift (abort_in_progress ∷ ran) l = ap (λ x. in_progress_status ∷ x) (progress-shift ran l)
progress-shift (write_scan_config scan_id ∷ ran) l = progress-shift ran l

started_lem :
    {V E : Type 0} (command : Command V E) (l : List TaskStatus)
    → progress (lambdas_of command) ++ in_progress_status ∷ l ≡ started command ++ l
started_lem on l = refl
started_lem off l = refl
started_lem standby l = refl
started_lem reset l = refl
started_lem deconfigure_scan l = refl
started_lem stop_scan l = refl
started_lem abort l = refl
started_lem obsreset l = refl
started_lem (configure_scan configuration rate) l = refl
started_lem (start_scan scan_id) l = refl
started_lem (go_to_fault fault_msg) l = refl

module _ {V E : Type 0} (v : Values V E) (raises : Call V → Option E) where
  module _ (heard : (status : TaskStatus) → raises (task_callback status) ≡ none) where
    job_end : Outcome E → Beam v raises true Unit → Beam v raises true Unit
    job_end success act = act
    job_end (failure e) act = from_result (raised e)

    Finishes-job_end :
        (o : Outcome E) (act : Beam v raises true Unit)
        → Finishes v raises act
        → Finishes v raises (job_end o act)
    unfolding job_end
    Finishes-job_end success act f = f
    Finishes-job_end (failure e) act f = λ m. silent e refl refl

    -- The reports of the lambda tasks that have run.
    lambdas-statuses :
        (ran : List Lambda) (m : BeamComponentManager V)
        → (statuses (run_lambdas v raises true ran m).1.calls ≡ progress ran ++ statuses m.calls)
          × ((run_lambdas v raises true ran m).0 ≡ returned tt)
    lambdas-statuses [] m = (refl, refl)
    lambdas-statuses (write_scan_config scan_id ∷ ran) m = lambdas-statuses ran m
    lambdas-statuses (abort_in_progress ∷ ran) m =
        let begin = report v raises true in_progress_status in
        let (s, r) = report-statuses v raises heard in_progress_status m in
        let (s', r') = lambdas-statuses ran (begin m).1 in
        let run = then_returned begin (λ y. run_lambdas v raises true ran) m r in
        (
          seen v raises run
              ∙ s'
              ∙ ap (λ l. progress ran ++ l) s
              ∙ progress-shift ran (statuses m.calls),
          ap (λ y. y.0) run ∙ r',
        )

    remote_job-job_end :
        (ran : List Lambda) (o : Outcome E) (act : Beam v raises true Unit)
        (m : BeamComponentManager V)
        → remote_job v raises true ran o act m
          ≡ (report v raises true in_progress_status
                >> try_except
                    (run_lambdas v raises true ran >> job_end o act)
                    (λ e. report v raises true failed_status))
              m
    unfolding remote_job job_end
    remote_job-job_end ran success act m = refl
    remote_job-job_end ran (failure e) act m = refl

    tried :
        (act : Beam v raises true Unit) (m : BeamComponentManager V)
        → Finishes v raises act
        → (status : TaskStatus) × ((status ≡ completed_status) ⊎ (status ≡ failed_status))
          × (statuses (try_except act (λ e. report v raises true failed_status) m).1.calls
              ≡ status ∷ statuses m.calls)
    tried act m f = elim (f m) [
      | reports status final s r ↦ (
        status,
        final,
        seen v raises (try_returned act (λ x. report v raises true failed_status) m r) ∙ s,
      )
      | silent e s r ↦
          let (s', r') = report-statuses v raises heard failed_status (act m).1 in
          (
            failed_status,
            inr refl,
            seen v raises (try_raised act (λ x. report v raises true failed_status) m r)
                ∙ s'
                ∙ ap (λ y. failed_status ∷ y) s,
          )
    ]

    -- Whether a job succeeds or fails, and whatever call of its completion callback raises, the BEAM
    -- reports IN_PROGRESS, twice for Abort and once for any other command, and then exactly one final
    -- status, if the task callback itself does not raise, and, for GoToFault, `handle_fault` does not.
    pub one_final_status :
        (command : Command V E) (o : Outcome E) (m : BeamComponentManager V)
        → ((fault_msg : String)
            → command ≡ go_to_fault fault_msg
            → raises (handle_fault fault_msg) ≡ none)
        → (status : TaskStatus) × ((status ≡ completed_status) ⊎ (status ≡ failed_status))
          × (statuses
                (remote_job v raises true
                  (lambdas_of command)
                  o
                  (completion v raises true command)
                  m).1.calls
              ≡ status ∷ started command ++ statuses m.calls)
    one_final_status command o m quiet =
        let act = job_end o (completion v raises true command) in
        let during = run_lambdas v raises true (lambdas_of command) in
        let handler : E → Beam v raises true Unit = λ e. report v raises true failed_status in
        let begin = report v raises true in_progress_status in
        let (s, r) = report-statuses v raises heard in_progress_status m in
        let (l, d) = lambdas-statuses (lambdas_of command) (begin m).1 in
        let (status, final, t) =
          tried act (during (begin m).1).1
            (Finishes-job_end o _ (Finishes-completion v raises heard command quiet)) in
        (
          status,
          final,
          seen v raises (
                remote_job-job_end (lambdas_of command) o _ m
                ∙ then_returned begin (λ y. try_except (during >> act) handler) m r
                ∙ try_same (during >> act) act handler
                    (then_returned during (λ y. act) (begin m).1 d))
              ∙ t
              ∙ ap (λ y. status ∷ y)
                  (l
                    ∙ ap (λ y. progress (lambdas_of command) ++ y) s
                    ∙ started_lem command (statuses m.calls)),
        )
