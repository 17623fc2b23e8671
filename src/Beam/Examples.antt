-- ===== src/Beam/Examples.antt =====
-- Jobs of the BEAM on concrete LambdaRuns.
use ska_pst_lmc.Prelude.{String, ◌≡◌, refl, ◌≢◌, ◌⊎◌, false, List, [], ◌∷◌, All, string_key}
use ska_pst_lmc.ObsState.{State, scanning, aborted}
use ska_pst_lmc.Job.{success}
use ska_pst_lmc.Job.Executor.{
  first, later, Ends, ends_noop, ends_lambda, ends_one_device, ends_in_turn, turn_nil, turn_done,
}
use ska_pst_lmc.Beam.{Device, smrb, recv, dsp, stat, Action, Lambda, remote_devices}
use ska_pst_lmc.Beam.Jobs.{
  Job, configure_scan_job, deconfigure_scan_job, stop_scan_job, abort_task, abort_job, obsreset_job,
}
use ska_pst_lmc.Beam.Order.{configure_scan_order}
use ska_pst_lmc.Beam.Runs.{Accepts, LambdaRuns, two_devices, three_devices, four_devices}

abbrev JobEnds : Job → List (Device × Action) → Type 0
JobEnds job sent = Ends Device Action Lambda String String Accepts LambdaRuns false job sent success

abbrev sent_to_all : Action → List (Device × Action)
sent_to_all a = (smrb, a) ∷ (recv, a) ∷ (dsp, a) ∷ (stat, a) ∷ []

abbrev outwards : Action → List (Device × Action)
outwards a = (recv, a) ∷ (dsp, a) ∷ (stat, a) ∷ (smrb, a) ∷ []

pub stop_scan_ends : JobEnds stop_scan_job (outwards Action.end_scan)
unfolding stop_scan_job
stop_scan_ends = ends_in_turn (
    turn_done (ends_one_device refl)
      (turn_done (two_devices _ _ dsp stat) (turn_done (ends_one_device refl) turn_nil)))

abbrev configured : List (Device × Action)
configured =
    (smrb, Action.configure_beam "{}")
    ∷ (dsp, Action.configure_beam "{}")
    ∷ (recv, Action.configure_beam "{}")
    ∷ (stat, Action.configure_beam "{}")
    ∷ (smrb, Action.configure_scan "{}")
    ∷ (recv, Action.configure_scan "{}")
    ∷ (stat, Action.configure_scan "{}")
    ∷ (dsp, Action.configure_scan "{}")
    ∷ []

configure_scan_ends : JobEnds (configure_scan_job "{}") configured
unfolding configure_scan_job
configure_scan_ends = ends_in_turn (
    turn_done (ends_one_device refl) (
      turn_done (three_devices _ _ dsp recv stat)
        (turn_done (three_devices _ _ smrb recv stat) (turn_done (ends_one_device refl) turn_nil))))

configure_scan_order_example :
    ((dsp ≢ smrb) ⊎ (Action.configure_scan "{}" ≢ Action.configure_beam "{}")
      → Accepts smrb (Action.configure_beam "{}") success)
    × (Action.configure_scan "{}" ≡ Action.configure_scan "{}"
        → All (λ x. Accepts x (Action.configure_beam "{}") success) remote_devices
          × (dsp ≡ dsp
              → All
                  (λ x. Accepts x (Action.configure_scan "{}") success)
                  (smrb ∷ recv ∷ stat ∷ [])))
configure_scan_order_example =
    configure_scan_order "{}" false _ success dsp (Action.configure_scan "{}") configure_scan_ends
      (later (later (later (later (later (later (later (first refl))))))))

deconfigure_scan_ends : JobEnds deconfigure_scan_job (
    (smrb, Action.deconfigure_scan)
    ∷ (recv, Action.deconfigure_scan)
    ∷ (dsp, Action.deconfigure_scan)
    ∷ (stat, Action.deconfigure_scan)
    ∷ (dsp, Action.deconfigure_beam)
    ∷ (recv, Action.deconfigure_beam)
    ∷ (stat, Action.deconfigure_beam)
    ∷ (smrb, Action.deconfigure_beam)
    ∷ [])
unfolding deconfigure_scan_job
deconfigure_scan_ends = ends_in_turn (
    turn_done (four_devices _ _ smrb recv dsp stat)
      (turn_done (three_devices _ _ dsp recv stat) (turn_done (ends_one_device refl) turn_nil)))

abbrev all_scanning : Device → State
all_scanning d = scanning

abort_ends : JobEnds (abort_job all_scanning) (outwards Action.abort)
unfolding abort_job abort_task
abort_ends = ends_in_turn (
    turn_done (ends_lambda refl) (
      turn_done (ends_one_device refl)
        (turn_done (two_devices _ _ dsp stat) (turn_done (ends_one_device refl) turn_nil))))

abbrev all_aborted : Device → State
all_aborted d = aborted

obsreset_ends : JobEnds (obsreset_job all_aborted) (
    (stat, Action.obs_reset)
    ∷ (dsp, Action.obs_reset)
    ∷ (recv, Action.obs_reset)
    ∷ (smrb, Action.obs_reset)
    ∷ [])
unfolding obsreset_job abort_task
obsreset_ends = ends_in_turn (
    turn_done ends_noop (
      turn_done ends_noop (
        turn_done ends_noop (
          turn_done (ends_one_device refl) (
            turn_done (ends_one_device refl)
              (turn_done (ends_one_device refl) (turn_done (ends_one_device refl) turn_nil)))))))
