-- ===== src/ObsState/Examples.antt =====
-- The machine of obs_state_model.py run on concrete histories.
use ska_pst_lmc.Prelude.{◌≡◌, refl, true, false, none, some, List, [], ◌∷◌}
use ska_pst_lmc.ObsState.{
  State, Trigger, Dispatch, PstObsStateMachine, first_row, transitions, init, fire, fire_all, empty,
  idle, ready, scanning, resetting, fault, assign_invoked, component_resourced, assign_completed,
  configure_invoked, component_configured, configure_completed, scan_invoked, component_scanning,
  obsreset_invoked,
}
use ska_pst_lmc.ObsState.Scanning.{Subsequence, scanning_needs_milestones}

abbrev in_order_dispatch : Dispatch
in_order_dispatch = record { call = first_row; in_order = λ rows s t. refl }

abbrev to_scan : List Trigger
to_scan =
    assign_invoked ∷ component_resourced ∷ assign_completed ∷ configure_invoked
    ∷ component_configured ∷ configure_completed ∷ scan_invoked ∷ component_scanning ∷ []

abbrev scanned : PstObsStateMachine
scanned = record {
  state = scanning;
  has_callback = true;
  called_with =
      empty ∷ State.resourcing_empty ∷ State.resourcing_idle ∷ idle ∷ State.configuring_idle
      ∷ State.configuring_ready ∷ ready ∷ ready ∷ scanning ∷ [];
}

to_scan_runs : fire_all in_order_dispatch (init true) to_scan ≡ some scanned
unfolding fire_all fire init first_row transitions
to_scan_runs = refl

scan_refused_when_empty : fire in_order_dispatch (init true) scan_invoked ≡ none
unfolding fire init first_row transitions
scan_refused_when_empty = refl

scanning_needs_milestones_example :
    Subsequence (component_resourced ∷ component_configured ∷ component_scanning ∷ []) to_scan
scanning_needs_milestones_example =
    scanning_needs_milestones in_order_dispatch true scanned to_scan to_scan_runs refl

abbrev faulted : PstObsStateMachine
faulted = record { state = fault; has_callback = false; called_with = [] }

abbrev resetting_machine : PstObsStateMachine
resetting_machine = record { state = resetting; has_callback = false; called_with = [] }

faulted_reset : fire in_order_dispatch faulted obsreset_invoked ≡ some resetting_machine
unfolding fire first_row transitions
faulted_reset = refl
