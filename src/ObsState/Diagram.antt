-- ===== src/ObsState/Diagram.antt =====
-- The diagram that the table of obs_state_model.py draws, and how the machine moves on it.
use mathlib.Core.Path.{fun_ext}
use ska_pst_lmc.Prelude.{◌≡◌, refl, ap, ◌∙◌, ◌⊎◌, Option, none, ◌>>=◌, some, List, [], ◌∷◌, arith}
use ska_pst_lmc.ObsState.{
  State, Trigger, Dispatch, PstObsStateMachine, transitions, first_row, state_changed, moved, fire,
  fire_all, abort_completed, abort_invoked, aborted, aborting, assign_completed, assign_invoked,
  component_configured, component_not_scanning, component_obsfault, component_resourced,
  component_scanning, component_unconfigured, component_unresourced, configure_completed,
  configure_invoked, configuring_idle, configuring_ready, empty, end_invoked, end_scan_invoked,
  fault, idle, obsreset_completed, obsreset_invoked, ready, release_completed, release_invoked,
  resetting, resourcing_empty, resourcing_idle, scan_invoked, scanning,
}

-- The arrows, state by state.
abbrev pub next : State → Trigger → Option State
next _ component_obsfault = some fault
next empty assign_invoked = some resourcing_empty
next empty release_invoked = some resourcing_empty
next idle assign_invoked = some resourcing_idle
next idle release_invoked = some resourcing_idle
next resourcing_empty component_resourced = some resourcing_idle
next resourcing_idle component_unresourced = some resourcing_empty
next resourcing_empty assign_completed = some empty
next resourcing_empty release_completed = some empty
next resourcing_idle assign_completed = some idle
next resourcing_idle release_completed = some idle
next idle configure_invoked = some configuring_idle
next configuring_idle configure_completed = some idle
next ready configure_invoked = some configuring_ready
next configuring_idle component_configured = some configuring_ready
next configuring_ready configure_completed = some ready
next ready end_invoked = some ready
next ready component_unconfigured = some idle
next ready scan_invoked = some ready
next ready component_scanning = some scanning
next scanning end_scan_invoked = some scanning
next scanning component_not_scanning = some ready
next idle abort_invoked = some aborting
next configuring_idle abort_invoked = some aborting
next configuring_ready abort_invoked = some aborting
next ready abort_invoked = some aborting
next scanning abort_invoked = some aborting
next resetting abort_invoked = some aborting
next aborting component_unconfigured = some aborting
next aborting component_configured = some aborting
next aborting component_not_scanning = some aborting
next aborting component_scanning = some aborting
next aborting abort_completed = some aborted
next aborted obsreset_invoked = some resetting
next fault obsreset_invoked = some resetting
next resetting component_unconfigured = some resetting
next resetting component_unresourced = some resetting
next resetting obsreset_completed = some empty
next _ _ = none

first_row-next : (s : State) (t : Trigger) → first_row transitions s t ≡ next s t
unfolding transitions first_row
first_row-next empty component_obsfault = refl
first_row-next resourcing_empty component_obsfault = refl
first_row-next resourcing_idle component_obsfault = refl
first_row-next idle component_obsfault = refl
first_row-next configuring_idle component_obsfault = refl
first_row-next configuring_ready component_obsfault = refl
first_row-next ready component_obsfault = refl
first_row-next scanning component_obsfault = refl
first_row-next aborting component_obsfault = refl
first_row-next aborted component_obsfault = refl
first_row-next resetting component_obsfault = refl
first_row-next fault component_obsfault = refl
first_row-next _ _ = refl

abbrev pub steps : PstObsStateMachine → List Trigger → Option PstObsStateMachine
steps m [] = some m
steps m (t ∷ ts) = moved m (next m.state t) >>= λ m'. steps m' ts

module _ (d : Dispatch) where
  pub fire-next : (m : PstObsStateMachine) (t : Trigger) → fire d m t ≡ moved m (next m.state t)
  unfolding fire
  fire-next m t = ap (moved m) (d.in_order transitions m.state t ∙ first_row-next m.state t)

  pub fire_all-steps : (m : PstObsStateMachine) (ts : List Trigger) → fire_all d m ts ≡ steps m ts
  unfolding fire_all
  fire_all-steps m [] = refl
  fire_all-steps m (t ∷ ts) =
      rw (fire-next m t)
        (ap (λ f. moved m (next m.state t) >>= f) (fun_ext λ m'. fire_all-steps m' ts))

  -- Whatever the state, a fault, a reset and its completion are accepted one after the other, and
  -- they leave the machine in EMPTY.
  pub fault_reset_empties :
      (m : PstObsStateMachine)
      → (m' : PstObsStateMachine) × (fire_all d m
            (component_obsfault ∷ obsreset_invoked ∷ obsreset_completed ∷ [])
          ≡ some m')
        × (m'.state ≡ empty)
  unfolding state_changed
  fault_reset_empties m =
      let a = state_changed (record m { state = fault }) in
      let b = state_changed (record a { state = resetting }) in
      (state_changed (record b { state = empty }), fire_all-steps _ _ ∙ ground arith, ground arith)

  -- A call in FAULT is accepted exactly when it is a further fault, which changes nothing, or the
  -- start of a reset, which goes to RESETTING.
  pub fault_left_by_reset :
      (m m' : PstObsStateMachine) (t : Trigger)
      → m.state ≡ fault
      → fire d m t ≡ some m'
      → (t ≡ component_obsfault) × (m'.state ≡ fault)
        ⊎ (t ≡ obsreset_invoked) × (m'.state ≡ resetting)
  unfolding state_changed
  fault_left_by_reset m m' t f h = ground (arith, fire-next m t)
