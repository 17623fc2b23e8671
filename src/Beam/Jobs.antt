-- ===== src/Beam/Jobs.antt =====
-- The jobs that the commands of the BEAM make (src/ska_pst_lmc/beam/beam_component_manager.py).
use ska_pst_lmc.Prelude.{
  String, Bool, true, false, not, List, [], ◌∷◌, ◌++◌, if◌then◌else◌, ltb, length,
}
use ska_pst_lmc.ObsState.{State, aborted, fault, empty}
use ska_pst_lmc.Job.{Task, Tasks, noop, lambda, sequential, device_command, nil, cons}
use ska_pst_lmc.Prelude.{some}
use ska_pst_lmc.Beam.{
  Device, smrb, recv, dsp, stat, Action, Lambda, write_scan_config, abort_in_progress,
  remote_devices,
}

abbrev pub Job : Type 0
Job = Task Device Action Lambda

abbrev pub tasks : List Job → Tasks Device Action Lambda
tasks [] = nil
tasks (t ∷ ts) = cons t (tasks ts)

abbrev pub select : (Device → Bool) → List Device → List Device
select p [] = []
select p (d ∷ ds) = let rest = select p ds in if p d then d ∷ rest else rest

-- `d.obsState not in [ABORTED, FAULT, EMPTY]`
abbrev pub is_to_abort : State → Bool
is_to_abort aborted = false
is_to_abort fault = false
is_to_abort empty = false
is_to_abort _ = true

abbrev pub is_to_reset : State → Bool
is_to_reset empty = false
is_to_reset _ = true

abbrev reversed : List Device → List Device
reversed [] = []
reversed (d ∷ ds) = reversed ds ++ d ∷ []

unfoldable pub on_job : Job
on_job = device_command remote_devices Action.on "On"

-- `is_off` is what `d.state() == DevState.OFF` comes to.
unfoldable pub off_job : (Device → Bool) → Job
off_job is_off = device_command (select (λ d. not (is_off d)) remote_devices) Action.off "Off"

unfoldable pub standby_job : Job
standby_job = device_command remote_devices Action.standby "Standby"

unfoldable pub reset_job : Job
reset_job = device_command remote_devices Action.reset "Reset"

unfoldable pub validation_job : String → Job
validation_job request_str =
    device_command (dsp ∷ recv ∷ smrb ∷ stat ∷ []) (Action.validate_configure_scan request_str)
      "ValidateConfigureScan"

unfoldable pub configure_scan_job : String → Job
configure_scan_job request_str = sequential (
    tasks (
      device_command (smrb ∷ []) (Action.configure_beam request_str) "ConfigureBeam"
      ∷ device_command (dsp ∷ recv ∷ stat ∷ []) (Action.configure_beam request_str) "ConfigureBeam"
      ∷ device_command (smrb ∷ recv ∷ stat ∷ []) (Action.configure_scan request_str) "ConfigureScan"
      ∷ device_command (dsp ∷ []) (Action.configure_scan request_str) "ConfigureScan"
      ∷ []))

unfoldable pub deconfigure_scan_job : Job
deconfigure_scan_job = sequential (
    tasks (
      device_command remote_devices Action.deconfigure_scan "DeconfigureScan"
      ∷ device_command (dsp ∷ recv ∷ stat ∷ []) Action.deconfigure_beam "DeconfigureBeam"
      ∷ device_command (smrb ∷ []) Action.deconfigure_beam "DeconfigureBeam"
      ∷ []))

unfoldable pub start_scan_job : String → Job
start_scan_job scan_id = sequential (
    tasks (
      lambda (write_scan_config scan_id) (some "write_scan_config_to_output_dir")
      ∷ device_command remote_devices (Action.scan scan_id) "Scan"
      ∷ []))

unfoldable pub stop_scan_job : Job
stop_scan_job = sequential (
    tasks (
      device_command (recv ∷ []) Action.end_scan "EndScan"
      ∷ device_command (dsp ∷ stat ∷ []) Action.end_scan "EndScan"
      ∷ device_command (smrb ∷ []) Action.end_scan "EndScan"
      ∷ []))

-- The devices' observation states are read when the job is made.
unfoldable pub abort_task : (Device → State) → List Device → Job
abort_task obs_state devices =
    let devices_to_abort = select (λ d. is_to_abort (obs_state d)) devices in
    if ltb 0 (length devices_to_abort)
    then device_command devices_to_abort Action.abort "Abort"
    else noop

unfoldable pub abort_job : (Device → State) → Job
unfolding abort_task
abort_job obs_state = sequential (
    tasks (
      lambda abort_in_progress (some "abort_in_progress")
      ∷ abort_task obs_state (recv ∷ [])
      ∷ abort_task obs_state (dsp ∷ stat ∷ [])
      ∷ abort_task obs_state (smrb ∷ [])
      ∷ []))

abbrev pub obsreset_subtasks : List Device → List Job
obsreset_subtasks [] = []
obsreset_subtasks (d ∷ ds) =
    device_command (d ∷ []) Action.obs_reset "ObsReset" ∷ obsreset_subtasks ds

unfoldable pub obsreset_job : (Device → State) → Job
unfolding abort_task
obsreset_job obs_state =
    let devices_to_reset = select (λ d. is_to_reset (obs_state d)) (reversed remote_devices) in
    sequential (
      tasks (
        abort_task obs_state (recv ∷ [])
        ∷ abort_task obs_state (dsp ∷ stat ∷ [])
        ∷ abort_task obs_state (smrb ∷ [])
        ∷ obsreset_subtasks devices_to_reset))

unfoldable pub go_to_fault_job : String → Job
go_to_fault_job fault_msg = sequential (
    tasks (
      device_command (recv ∷ []) (Action.go_to_fault fault_msg) "GoToFault"
      ∷ device_command (dsp ∷ stat ∷ []) (Action.go_to_fault fault_msg) "GoToFault"
      ∷ device_command (smrb ∷ []) (Action.go_to_fault fault_msg) "GoToFault"
      ∷ []))
