-- ===== src/Device.antt =====
-- The Tango devices of the processes (src/ska_pst_lmc/component/pst_device.py): which commands the
-- observation state allows, and what the component's changes and the hooks of a command do to it. What
-- the devices inherit from the library is an interface.
pub mod Commands
pub mod Endings
mod Examples
use ska_pst_lmc.Prelude.{◌≡◌, Bool, true, false, Option, none, some, List, [], ◌∷◌}
use ska_pst_lmc.Effects.{returned, raised, Act, ◌>>◌, pure}
use ska_pst_lmc.ObsState.{
  State, empty, idle, ready, Trigger, component_obsfault, component_resourced,
  component_unresourced, component_configured, component_unconfigured, component_scanning,
  component_not_scanning, assign_invoked, assign_completed, release_invoked, release_completed,
  Dispatch, PstObsStateMachine, fire,
}
use ska_pst_lmc.Process.Api.{
  Call, grpc_call, stop_monitoring, push_resourced, push_configured, push_scanning, push_reset,
  push_obsfault, task_callback, TaskStatus, in_progress_status, completed_status, failed_status,
  Exception, other_exception,
}

-- An action on the observation state. It may raise.
abbrev pub Changes : Type 0
Changes = Act PstObsStateMachine Exception Unit

abbrev pub state_model_error : Exception
state_model_error = other_exception "StateModelError"

-- `perform_action` is that of the library's `ObsStateModel`, `super_changed` the library's
-- `_component_state_changed`, of `configured` and `scanning`, and `is_final` says at which status of a
-- slow command the library calls the command's hook for the second time.
pub record Library : Type 0 where
  pub perform_action : Trigger → Changes
  pub super_changed : Option Bool → Option Bool → Changes
  pub is_final : TaskStatus → Bool

-- The action is a trigger of the machine; what the machine refuses is a `StateModelError`.
abbrev pub act_on_machine : Dispatch → Trigger → Changes
act_on_machine d t m = elim (fire d m t) [
  | none ↦ (raised state_model_error, m)
  | some m' ↦ (returned tt, m')
]

abbrev pub either_trigger : Dispatch → Trigger → Trigger → Option Bool → Changes
either_trigger d on off none = pure tt
either_trigger d on off (some true) = act_on_machine d on
either_trigger d on off (some false) = act_on_machine d off

-- What the library documents.
pub record IsDocumented (d : Dispatch) (lib : Library) : Type 0 where
  pub performs :
      (t : Trigger) (m : PstObsStateMachine) → lib.perform_action t m ≡ act_on_machine d t m
  pub changes :
      (configured scanning : Option Bool) (m : PstObsStateMachine)
      → lib.super_changed configured scanning m
        ≡ (either_trigger d component_configured component_unconfigured configured
              >> either_trigger d component_scanning component_not_scanning scanning)
            m
  pub in_progress_goes_on : lib.is_final in_progress_status ≡ false
  pub completed_ends : lib.is_final completed_status ≡ true
  pub failed_ends : lib.is_final failed_status ≡ true

-- The commands that `PstBaseProcessDevice` adds.
pub data Command : Type 0 where
  configure_beam deconfigure_beam deconfigure_scan validate_configure_scan : Command

-- The state model's hooks, before and after a command.
abbrev pub hook : Command → Option (Trigger × Trigger)
hook configure_beam = some (assign_invoked, assign_completed)
hook deconfigure_beam = some (release_invoked, release_completed)
hook deconfigure_scan = none
hook validate_configure_scan = none

unfoldable pub is_validate_configure_scan_allowed : State → Bool
is_validate_configure_scan_allowed empty = true
is_validate_configure_scan_allowed _ = false

unfoldable pub is_configure_beam_allowed : State → Bool
is_configure_beam_allowed empty = true
is_configure_beam_allowed _ = false

unfoldable pub is_deconfigure_beam_allowed : State → Bool
is_deconfigure_beam_allowed idle = true
is_deconfigure_beam_allowed _ = false

unfoldable pub is_deconfigure_scan_allowed : State → Bool
is_deconfigure_scan_allowed ready = true
is_deconfigure_scan_allowed _ = false

-- What is not allowed is a `StateModelError`.
unfoldable pub is_allowed : Command → State → Bool
unfolding is_validate_configure_scan_allowed is_configure_beam_allowed is_deconfigure_beam_allowed
    is_deconfigure_scan_allowed
is_allowed configure_beam s = is_configure_beam_allowed s
is_allowed validate_configure_scan s = is_validate_configure_scan_allowed s
is_allowed deconfigure_beam s = is_deconfigure_beam_allowed s
is_allowed deconfigure_scan s = is_deconfigure_scan_allowed s

module _ (lib : Library) where
  -- The parts of `_component_state_changed` that are the devices' own.
  abbrev pub obsfault_changed : Option Bool → Changes
  obsfault_changed none = pure tt
  obsfault_changed (some false) = pure tt
  obsfault_changed (some true) = lib.perform_action component_obsfault

  abbrev pub resourced_changed : Option Bool → Changes
  resourced_changed none = pure tt
  resourced_changed (some true) = lib.perform_action component_resourced
  resourced_changed (some false) = lib.perform_action component_unresourced

  -- `PstBaseDevice._component_state_changed`.
  unfoldable pub base_component_state_changed : Option Bool → Option Bool → Option Bool → Changes
  base_component_state_changed obsfault configured scanning =
      lib.super_changed configured scanning >> obsfault_changed obsfault

  -- `PstBaseProcessDevice._component_state_changed`.
  unfoldable pub component_state_changed :
      Option Bool → Option Bool → Option Bool → Option Bool → Changes
  component_state_changed resourced obsfault configured scanning =
      base_component_state_changed obsfault configured scanning >> resourced_changed resourced

  -- `_callback` of `init_command_objects`, before and after a command.
  unfoldable pub invoked : Command → Changes
  invoked c = elim (hook c) [ none ↦ pure tt | some (before, after) ↦ lib.perform_action before ]

  unfoldable pub completed : Command → Changes
  completed c = elim (hook c) [ none ↦ pure tt | some (before, after) ↦ lib.perform_action after ]

  -- What a call of the process's client does to the observation state, while a command runs.
  unfoldable pub on_call : {M : Type 0} → Command → Call M → Changes
  on_call c (push_resourced b) = component_state_changed (some b) none none none
  on_call c (push_configured b) = component_state_changed none none (some b) none
  on_call c (push_scanning b) = component_state_changed none none none (some b)
  on_call c push_reset = component_state_changed (some false) none (some false) none
  on_call c push_obsfault = component_state_changed none (some true) none none
  on_call c (task_callback status result) = elim (lib.is_final status) [
    | true ↦ completed c
    | false ↦ pure tt
  ]
  on_call c (grpc_call r) = pure tt
  on_call c stop_monitoring = pure tt

  -- The calls in turn, of a list with the latest first.
  abbrev pub on_calls : {M : Type 0} → Command → List (Call M) → Changes
  on_calls c [] = pure tt
  on_calls c (call ∷ calls) = on_calls c calls >> on_call c call

  -- A command whose task makes the calls.
  unfoldable pub run_command : {M : Type 0} → Command → List (Call M) → Changes
  run_command c calls m = elim (is_allowed c m.state) [
    | true ↦ (invoked c >> on_calls c calls) m
    | false ↦ (raised state_model_error, m)
  ]
