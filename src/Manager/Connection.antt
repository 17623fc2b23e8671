-- ===== src/Manager/Connection.antt =====
-- The connection of a component manager to its process
-- (src/ska_pst_lmc/component/component_manager.py and dsp/dsp_component_manager.py): when communication
-- starts and stops, and what a change of the simulation mode does to it.
use ska_pst_lmc.Prelude.{
  ℕ, suc, nat_beq, Bool, true, false, Option, none, List, [], ◌∷◌, if◌then◌else◌,
}
use ska_pst_lmc.Effects.{returned, Act, ◌>>◌, pure, modify, unless_raised}
use ska_pst_lmc.Process.Api.{Exception}
use ska_pst_lmc.Manager.{Component, smrb, recv, dsp, stat}

pub data CommunicationStatus : Type 0 where
  disabled not_established established : CommunicationStatus

-- `SimulationMode` of ska_control_model.
pub data SimulationMode : Type 0 where
  simulation_false simulation_true : SimulationMode

pub data HealthState : Type 0 where
  ok_health unknown_health : HealthState

pub data PowerState : Type 0 where
  off_power unknown_power : PowerState

-- What the manager asks of others: of its API, which is known by its number, of the task that polls the
-- disk, and of the device.
pub data Event : Type 0 where
  connect disconnect : ℕ → Event
  start_monitoring stop_monitoring : Event
  push_component_state_update : PowerState → Event
  update_health_state : HealthState → Event

-- `B` is the state of the library's manager. `api` is the number of the API that the last `_update_api`
-- made, and `disk_monitor_task` is whether DSP has one. The events are the latest first.
pub record Manager (B : Type 0) : Type 0 where
  pub base : B
  pub simulation_mode : SimulationMode
  pub api : ℕ
  pub disk_monitor_task : Bool
  pub events : List Event

abbrev pub new_manager : {B : Type 0} → B → SimulationMode → Manager B
new_manager base mode = record {
  base = base;
  simulation_mode = mode;
  api = 0;
  disk_monitor_task = false;
  events = [];
}

abbrev pub same_mode : SimulationMode → SimulationMode → Bool
same_mode simulation_false simulation_false = true
same_mode simulation_true simulation_true = true
same_mode simulation_false simulation_true = false
same_mode simulation_true simulation_false = false

abbrev pub is_established : CommunicationStatus → Bool
is_established established = true
is_established not_established = false
is_established disabled = false

abbrev pub Op : Type 0 → Type 0
Op B = Act (Manager B) Exception Unit

abbrev emit : {B : Type 0} → Event → Op B
emit e = modify (λ s. record s { events = e ∷ s.events })

-- `_update_api` makes a new API.
abbrev pub update_api : {B : Type 0} → Op B
update_api = modify (λ s. record s { api = suc s.api })

pub data Operation : Type 0 where
  starts : Option Exception → Operation
  stops : Operation
  sets_mode : SimulationMode → Option Exception → Operation

-- `get_state` and `set_state` are `communication_state` and `_update_communication_state` of the
-- library. The argument `fails` of an operation is the exception, if any, of a call of `connect`.
module _ {B : Type 0} (get_state : B → CommunicationStatus)
    (set_state : CommunicationStatus → B → B) where
  abbrev update_communication_state : CommunicationStatus → Op B
  update_communication_state c = modify (λ s. record s { base = set_state c s.base })

  -- `PstApiComponentManager._connect_to_api`.
  unfoldable pub connect_to_api : Option Exception → Op B
  connect_to_api fails =
      update_communication_state not_established
      >> unless_raised fails
      >> (λ s. emit (connect s.api) s)
      >> update_communication_state established
      >> emit (push_component_state_update off_power)
      >> emit (update_health_state ok_health)

  -- `PstDspComponentManager._connect_to_api`: a task is made unless there is one.
  unfoldable pub connect_to : Component → Option Exception → Op B
  connect_to dsp fails =
      connect_to_api fails
      >> modify (λ s. record s { disk_monitor_task = true })
      >> emit start_monitoring
  connect_to smrb fails = connect_to_api fails
  connect_to recv fails = connect_to_api fails
  connect_to stat fails = connect_to_api fails

  -- `PstApiComponentManager._disconnect_from_api`.
  unfoldable pub disconnect_from_api : Op B
  disconnect_from_api =
      (λ s. emit (disconnect s.api) s)
      >> update_communication_state disabled
      >> emit (push_component_state_update unknown_power)
      >> emit (update_health_state unknown_health)

  -- The first half of `PstDspComponentManager._disconnect_from_api`.
  unfoldable pub stop_disk_monitor_task : Op B
  stop_disk_monitor_task s = elim s.disk_monitor_task [
    | true ↦ (emit stop_monitoring >> modify (λ t. record t { disk_monitor_task = false })) s
    | false ↦ (returned tt, s)
  ]

  unfoldable pub disconnect_from : Component → Op B
  disconnect_from dsp = stop_disk_monitor_task >> disconnect_from_api
  disconnect_from smrb = disconnect_from_api
  disconnect_from recv = disconnect_from_api
  disconnect_from stat = disconnect_from_api

  unfoldable pub handle_communication_state_change :
      Component → CommunicationStatus → Option Exception → Op B
  handle_communication_state_change c not_established fails = connect_to c fails
  handle_communication_state_change c disabled fails = disconnect_from c
  handle_communication_state_change c established fails = pure tt

  unfoldable pub start_communicating : Component → Option Exception → Op B
  start_communicating c fails s = elim (get_state s.base) [
    | established ↦ (returned tt, s)
    | disabled ↦ handle_communication_state_change c not_established fails s
    | not_established ↦ (returned tt, s)
  ]

  unfoldable pub stop_communicating : Component → Op B
  stop_communicating c s = elim (get_state s.base) [
    | disabled ↦ (returned tt, s)
    | established ↦ handle_communication_state_change c disabled none s
    | not_established ↦ handle_communication_state_change c disabled none s
  ]

  unfoldable pub simulation_mode_changed : Component → Option Exception → Op B
  simulation_mode_changed c fails s = elim (is_established (get_state s.base)) [
    | true ↦ (stop_communicating c >> update_api >> start_communicating c fails) s
    | false ↦ update_api s
  ]

  unfoldable pub set_simulation_mode : Component → SimulationMode → Option Exception → Op B
  set_simulation_mode c mode fails s = elim (same_mode s.simulation_mode mode) [
    | true ↦ (returned tt, s)
    | false ↦ simulation_mode_changed c fails (record s { simulation_mode = mode })
  ]

  abbrev pub perform : Component → Operation → Manager B → Manager B
  perform c (starts fails) s = (start_communicating c fails s).1
  perform c stops s = (stop_communicating c s).1
  perform c (sets_mode mode fails) s = (set_simulation_mode c mode fails s).1

  -- The operations in turn; one that raises leaves what it has done.
  abbrev pub perform_all : Component → List Operation → Manager B → Manager B
  perform_all c [] s = s
  perform_all c (op ∷ ops) s = perform_all c ops (perform c op s)

abbrev remove_api : ℕ → List ℕ → List ℕ
remove_api n [] = []
remove_api n (m ∷ ms) = let rest = remove_api n ms in if nat_beq n m then rest else m ∷ rest

-- The APIs that are connected, by the events.
abbrev pub connected : List Event → List ℕ
connected [] = []
connected (connect n ∷ es) = n ∷ connected es
connected (disconnect n ∷ es) = remove_api n (connected es)
connected (start_monitoring ∷ es) = connected es
connected (stop_monitoring ∷ es) = connected es
connected (push_component_state_update p ∷ es) = connected es
connected (update_health_state h ∷ es) = connected es
