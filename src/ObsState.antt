-- ===== src/ObsState.antt =====
-- The observation state machine of the PST sub-devices
-- (src/ska_pst_lmc/component/obs_state_model.py). The class `Machine` of the package `transitions`
-- is a parameter: `Dispatch` says which of the table's rows it takes.
pub mod Diagram
pub mod Scanning
mod Examples
use ska_pst_lmc.Prelude.{
  ℕ, ◌≡◌, Bool, true, false, ◌&&◌, Option, none, some, List, [], ◌∷◌, ◌++◌, nat_beq, if◌then◌else◌,
  ◌>>=◌,
}

pub data State : Type 0 where
  empty : State
  resourcing_empty : State
  resourcing_idle : State
  idle : State
  configuring_idle : State
  configuring_ready : State
  ready : State
  scanning : State
  aborting : State
  aborted : State
  resetting : State
  fault : State

pub data Trigger : Type 0 where
  component_obsfault : Trigger
  assign_invoked : Trigger
  release_invoked : Trigger
  component_resourced : Trigger
  component_unresourced : Trigger
  assign_completed : Trigger
  release_completed : Trigger
  configure_invoked : Trigger
  configure_completed : Trigger
  component_configured : Trigger
  end_invoked : Trigger
  component_unconfigured : Trigger
  scan_invoked : Trigger
  component_scanning : Trigger
  end_scan_invoked : Trigger
  component_not_scanning : Trigger
  abort_invoked : Trigger
  abort_completed : Trigger
  obsreset_invoked : Trigger
  obsreset_completed : Trigger

-- `"source"` of a row: `"*"`, one state, or a list of states.
pub data Source : Type 0 where
  any : Source
  one : State → Source
  among : List State → Source

pub data Row : Type 0 where
  row : Source → Trigger → State → Row

abbrev state_code : State → ℕ
state_code empty = 0
state_code resourcing_empty = 1
state_code resourcing_idle = 2
state_code idle = 3
state_code configuring_idle = 4
state_code configuring_ready = 5
state_code ready = 6
state_code scanning = 7
state_code aborting = 8
state_code aborted = 9
state_code resetting = 10
state_code fault = 11

abbrev trigger_code : Trigger → ℕ
trigger_code component_obsfault = 0
trigger_code assign_invoked = 1
trigger_code release_invoked = 2
trigger_code component_resourced = 3
trigger_code component_unresourced = 4
trigger_code assign_completed = 5
trigger_code release_completed = 6
trigger_code configure_invoked = 7
trigger_code configure_completed = 8
trigger_code component_configured = 9
trigger_code end_invoked = 10
trigger_code component_unconfigured = 11
trigger_code scan_invoked = 12
trigger_code component_scanning = 13
trigger_code end_scan_invoked = 14
trigger_code component_not_scanning = 15
trigger_code abort_invoked = 16
trigger_code abort_completed = 17
trigger_code obsreset_invoked = 18
trigger_code obsreset_completed = 19

-- The literal `transitions`, row by row.
unfoldable pub transitions : List Row
transitions =
    row any component_obsfault fault
    ∷ row (one empty) assign_invoked resourcing_empty
    ∷ row (one empty) release_invoked resourcing_empty
    ∷ row (one idle) assign_invoked resourcing_idle
    ∷ row (one idle) release_invoked resourcing_idle
    ∷ row (one resourcing_empty) component_resourced resourcing_idle
    ∷ row (one resourcing_idle) component_unresourced resourcing_empty
    ∷ row (one resourcing_empty) assign_completed empty
    ∷ row (one resourcing_empty) release_completed empty
    ∷ row (one resourcing_idle) assign_completed idle
    ∷ row (one resourcing_idle) release_completed idle
    ∷ row (one idle) configure_invoked configuring_idle
    ∷ row (one configuring_idle) configure_completed idle
    ∷ row (one ready) configure_invoked configuring_ready
    ∷ row (one configuring_idle) component_configured configuring_ready
    ∷ row (one configuring_ready) configure_completed ready
    ∷ row (one ready) end_invoked ready
    ∷ row (one ready) component_unconfigured idle
    ∷ row (one ready) scan_invoked ready
    ∷ row (one ready) component_scanning scanning
    ∷ row (one scanning) end_scan_invoked scanning
    ∷ row (one scanning) component_not_scanning ready
    ∷ row (among (idle ∷ configuring_idle ∷ configuring_ready ∷ ready ∷ scanning ∷ resetting ∷ []))
        abort_invoked aborting
    ∷ row (one aborting) component_unconfigured aborting
    ∷ row (one aborting) component_configured aborting
    ∷ row (one aborting) component_not_scanning aborting
    ∷ row (one aborting) component_scanning aborting
    ∷ row (one aborting) abort_completed aborted
    ∷ row (among (aborted ∷ fault ∷ [])) obsreset_invoked resetting
    ∷ row (one resetting) component_unconfigured resetting
    ∷ row (one resetting) component_unresourced resetting
    ∷ row (one resetting) obsreset_completed empty
    ∷ []

mem_state : State → List State → Bool
mem_state s [] = false
mem_state s (x ∷ xs) = if nat_beq (state_code s) (state_code x) then true else mem_state s xs

covers : Source → State → Bool
unfolding mem_state
covers any s = true
covers (one x) s = nat_beq (state_code s) (state_code x)
covers (among xs) s = mem_state s xs

-- The destination of the first row for the trigger whose source covers the state.
unfoldable pub first_row : List Row → State → Trigger → Option State
unfolding covers
first_row [] s t = none
first_row (row source trigger dest ∷ rows) s t =
    if covers source s && nat_beq (trigger_code t) (trigger_code trigger)
    then some dest
    else first_row rows s t

-- The package's part: given the table, what a call of a trigger method does in a state. `none` is
-- its `MachineError`. It is documented to try the rows of a trigger in order.
pub record Dispatch : Type 0 where
  pub call : List Row → State → Trigger → Option State
  pub in_order : (rows : List Row) (s : State) (t : Trigger) → call rows s t ≡ first_row rows s t

-- The machine with the calls that `_state_changed` has made of `_callback`, oldest first.
pub record PstObsStateMachine : Type 0 where
  pub state : State
  pub has_callback : Bool
  pub called_with : List State

unfoldable pub state_changed : PstObsStateMachine → PstObsStateMachine
state_changed m =
    if m.has_callback then record m { called_with = m.called_with ++ m.state ∷ [] } else m

unfoldable pub init : Bool → PstObsStateMachine
unfolding state_changed
init callback = state_changed (record { state = empty; has_callback = callback; called_with = [] })

abbrev pub moved : PstObsStateMachine → Option State → Option PstObsStateMachine
moved m none = none
moved m (some dest) = some (state_changed (record m { state = dest }))

module _ (d : Dispatch) where
  -- One call of a trigger method; `after_state_change` runs on every row that is taken.
  unfoldable pub fire : PstObsStateMachine → Trigger → Option PstObsStateMachine
  unfolding state_changed
  fire m t = moved m (d.call transitions m.state t)

  -- A sequence of calls, up to the first error.
  unfoldable pub fire_all : PstObsStateMachine → List Trigger → Option PstObsStateMachine
  fire_all m [] = some m
  fire_all m (t ∷ ts) = fire m t >>= λ m'. fire_all m' ts
