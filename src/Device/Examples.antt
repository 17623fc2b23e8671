-- ===== src/Device/Examples.antt =====
-- A device whose process fails while its beam is configured.
use ska_pst_lmc.Prelude.{◌≡◌, refl, String, Bool, true, false, Option, some, [], ◌∷◌}
use ska_pst_lmc.Effects.{raised, ◌>>◌}
use ska_pst_lmc.ObsState.{
  PstObsStateMachine, empty, fault, component_configured, component_unconfigured,
  component_scanning, component_not_scanning, Dispatch, first_row,
}
use ska_pst_lmc.Process.{GrpcException, invalid_request}
use ska_pst_lmc.Process.Api.{
  Request, TaskStatus, in_progress_status, completed_status, failed_status,
}
use ska_pst_lmc.Process.Reactions.{Operation, run}
use ska_pst_lmc.Device.{
  state_model_error, Library, act_on_machine, either_trigger, IsDocumented, configure_beam,
  is_allowed, is_configure_beam_allowed, run_command,
}
use ska_pst_lmc.Device.Endings.{command_ends}

abbrev in_order : Dispatch
in_order = record { call = first_row; in_order = λ rows s t. refl }

abbrev final : TaskStatus → Bool
final in_progress_status = false
final completed_status = true
final failed_status = true

abbrev library : Library
library = record {
  perform_action = act_on_machine in_order;
  super_changed = λ configured scanning.
      either_trigger in_order component_configured component_unconfigured configured
      >> either_trigger in_order component_scanning component_not_scanning scanning;
  is_final = final;
}

library-IsDocumented : IsDocumented in_order library
library-IsDocumented = record {
  performs = λ t m. refl;
  changes = λ configured scanning m. refl;
  in_progress_goes_on = refl;
  completed_ends = refl;
  failed_ends = refl;
}

abbrev broken : Request String → Option GrpcException
broken r = some (record { kind = invalid_request; message = "broken" })

abbrev new_machine : PstObsStateMachine
new_machine = record { state = empty; has_callback = true; called_with = empty ∷ [] }

command_ends_example :
    let (r, m') =
      run_command library configure_beam
        (run broken (Operation.configure_beam "beam") []).1
        new_machine in
    (r ≡ raised state_model_error) × (m'.state ≡ fault)
unfolding is_allowed is_configure_beam_allowed
command_ends_example =
    command_ends in_order library library-IsDocumented configure_beam "beam"
      (Operation.configure_beam "beam") broken new_machine refl refl
