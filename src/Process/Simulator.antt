-- ===== src/Process/Simulator.antt =====
-- The simulated APIs of the processes (src/ska_pst_lmc/component/process_api.py, `PstProcessApiSimulator`,
-- and the `_process_api.py` modules of SMRB, RECV, DSP and STAT), which stand for the gRPC clients in
-- simulation mode. Their sleeps are left out.
pub mod Operations
pub mod Agreement
mod Examples
use ska_pst_lmc.Prelude.{
  ℕ, String, Bool, true, false, Option, none, some, List, ◌∷◌, if◌then◌else◌, ◌||◌,
}
use ska_pst_lmc.Effects.{returned, raised, Act, ◌>>◌, pure, modify, from_result, unless_raised}
use ska_pst_lmc.Process.Api.{
  Call, push_resourced, push_configured, push_scanning, push_reset, push_obsfault, task_callback,
  in_progress_status, completed_status, Exception, validation_error,
}
use ska_pst_lmc.Process.Reactions.{
  Operation, configure_beam, configure_scan, start_scan, deconfigure_beam, deconfigure_scan,
  stop_scan, abort, reset,
}

-- A call out of a simulated API: as one of the gRPC client, or the progress of a task.
pub data SimulatedCall (M : Type 0) : Type 0 where
  made : Call M → SimulatedCall M
  progress : ℕ → SimulatedCall M

-- `simulator_scan` is the flag `_scan` of the simulator that makes the monitoring data. The calls are
-- the latest first.
pub record PstProcessApiSimulator (M : Type 0) : Type 0 where
  pub scanning : Bool
  pub monitor_abort_event : Bool
  pub fail_validate_configure_beam : Bool
  pub fail_validate_configure_scan : Bool
  pub simulator_scan : Bool
  pub calls : List (SimulatedCall M)

abbrev pub Simulated : Type 0 → Type 0
Simulated M = Act (PstProcessApiSimulator M) Exception Unit

module _ {M : Type 0} where
  abbrev pub tell : Call M → Simulated M
  tell c = modify (λ s. record s { calls = made c ∷ s.calls })

  abbrev pub progressed : ℕ → Simulated M
  progressed n = modify (λ s. record s { calls = progress n ∷ s.calls })

  abbrev pub begin : Simulated M
  begin = tell (task_callback in_progress_status none)

  abbrev pub finish : Simulated M
  finish = tell (task_callback completed_status (some "Completed"))

  abbrev pub set_scanning : Bool → Simulated M
  set_scanning b = modify (λ s. record s { scanning = b })

  abbrev pub simulator_scans : Bool → Simulated M
  simulator_scans b = modify (λ s. record s { simulator_scan = b })

  unfoldable pub stop_monitoring : Simulated M
  stop_monitoring = modify (λ s. record s { monitor_abort_event = true })

  unfoldable pub should_be_monitoring : PstProcessApiSimulator M → Bool
  should_be_monitoring s = if s.monitor_abort_event then false else s.scanning

  -- `invalid_source` is whether the configuration names the source "invalid source".
  unfoldable pub validate_configure_beam : Bool → Simulated M
  validate_configure_beam invalid_source s =
      if s.fail_validate_configure_beam
      then (raised (validation_error "Simulated validation error for configure beam."), s)
      else if invalid_source
      then (raised (validation_error "Simulated validation error due to invalid source"), s)
      else (returned tt, s)

  unfoldable pub validate_configure_scan : Bool → Simulated M
  validate_configure_scan invalid_source s =
      if s.fail_validate_configure_scan
      then (raised (validation_error "Simulated validation error for configure scan."), s)
      else if invalid_source
      then (raised (validation_error "Simulated validation error due to invalid source"), s)
      else (returned tt, s)

  unfoldable pub go_to_fault : Simulated M
  unfolding stop_monitoring
  go_to_fault =
      (λ s. (returned tt, (if s.scanning then record s { scanning = false } else s)))
      >> stop_monitoring
      >> tell push_obsfault
