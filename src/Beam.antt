-- ===== src/Beam.antt =====
-- The component manager of the BEAM (src/ska_pst_lmc/beam/beam_component_manager.py): its data. JSON
-- values are a type of the caller's. A Python attribute that is set by its name stands in a
-- dictionary.
pub mod Jobs
pub mod Order
mod Waiting
pub mod AbortOrder
pub mod Commands
pub mod Reports
pub mod Completions
mod Runs
pub mod Statuses
pub mod Success
pub mod Properties
mod Examples
mod ReportExamples
use ska_pst_lmc.Prelude.{ℕ, String, Bool, true, false, Option, List, [], ◌∷◌}

-- The proxies `_smrb_device`, `_recv_device`, `_dsp_device` and `_stat_device`.
pub data Device : Type 0 where
  smrb recv dsp stat : Device

-- What the tasks of the module call on a proxy, with the argument.
pub data Action : Type 0 where
  on off standby reset deconfigure_scan deconfigure_beam end_scan abort obs_reset : Action
  validate_configure_scan configure_beam configure_scan scan go_to_fault : String → Action

-- The actions of the two lambda tasks.
pub data Lambda : Type 0 where
  write_scan_config : String → Lambda
  abort_in_progress : Lambda

pub data PowerState : Type 0 where
  unknown_power off_power standby_power on_power : PowerState

pub data TaskStatus : Type 0 where
  in_progress_status completed_status failed_status : TaskStatus

-- The two sections of a configuration that the manager reads.
pub record Configuration (V : Type 0) : Type 0 where
  pub common : Option (List (String × V))
  pub pst_scan : Option (List (String × V))

-- A call out of the component manager.
pub data Call (V : Type 0) : Type 0 where
  push_power : PowerState → Call V
  push_configured push_scanning push_obsfault : Bool → Call V
  update_health_ok subscribe_change_events unsubscribe_change_events abort_commands : Call V
  handle_fault : String → Call V
  property_callback : String → V → Call V
  task_callback : TaskStatus → Call V

-- `calls` has the latest call first.
pub record BeamComponentManager (V : Type 0) : Type 0 where
  pub properties : List (String × V)
  pub scan_id : ℕ
  pub config_id : V
  pub curr_scan_config : Option (Configuration V)
  pub calls : List (Call V)

abbrev pub remote_devices : List Device
remote_devices = smrb ∷ recv ∷ dsp ∷ stat ∷ []
