-- ===== src/Manager/Connected.antt =====
-- Which API a component manager is connected to, and what it tells the device about it
-- (src/ska_pst_lmc/component/component_manager.py and dsp/dsp_component_manager.py).
use mathlib.Core.Path.{subst}
use ska_pst_lmc.Prelude.{
  ℕ, ◌≡◌, ◌≢◌, sym, refl, ◌⊎◌, inl, inr, Bool, true, false, Option, none, some, List, [], ◌∷◌,
  arith,
}
use ska_pst_lmc.Effects.{returned}
use ska_pst_lmc.Process.Api.{Exception}
use ska_pst_lmc.Manager.{Component, smrb, recv, dsp, stat}
use ska_pst_lmc.Manager.Connection.{
  CommunicationStatus, disabled, not_established, established, SimulationMode, HealthState,
  ok_health, unknown_health, Event, start_monitoring, stop_monitoring, update_health_state, Manager,
  new_manager, Operation, starts, stops, sets_mode, connect_to_api, connect_to,
  stop_disk_monitor_task, disconnect_from_api, disconnect_from, handle_communication_state_change,
  start_communicating, stop_communicating, simulation_mode_changed, set_simulation_mode, perform,
  perform_all, connected, update_api,
}

-- The APIs that are to be connected in a communication state, whether the disk is to be polled, and the
-- health that the device is to have.
abbrev pub expected_apis : CommunicationStatus → ℕ → List ℕ
expected_apis established api = api ∷ []
expected_apis not_established api = []
expected_apis disabled api = []

abbrev pub expected_task : Component → CommunicationStatus → Bool
expected_task dsp established = true
expected_task _ _ = false

abbrev pub expected_health : CommunicationStatus → HealthState
expected_health established = ok_health
expected_health not_established = unknown_health
expected_health disabled = unknown_health

-- Whether DSP's disk is polled, by the calls of the task that does it.
abbrev pub polls : List Event → Bool
polls [] = false
polls (start_monitoring ∷ es) = true
polls (stop_monitoring ∷ es) = false
polls (_ ∷ es) = polls es

-- The health that was told last.
abbrev pub health : List Event → HealthState
health [] = unknown_health
health (update_health_state h ∷ es) = h
health (_ ∷ es) = health es

status-cases :
    (c : CommunicationStatus) → (c ≡ disabled) ⊎ (c ≡ not_established) ⊎ (c ≡ established)
status-cases disabled = inl refl
status-cases not_established = inr (inl refl)
status-cases established = inr (inr refl)

module _ {B : Type 0} (get_state : B → CommunicationStatus)
    (set_state : CommunicationStatus → B → B)
    (stored : (c : CommunicationStatus) (b : B) → get_state (set_state c b) ≡ c) where
  abbrev pub IsSound : Component → Manager B → Type 0
  IsSound c s =
      (connected s.events ≡ expected_apis (get_state s.base) s.api)
      × (s.disk_monitor_task ≡ expected_task c (get_state s.base))
      × (polls s.events ≡ expected_task c (get_state s.base))
      × (health s.events ≡ expected_health (get_state s.base))

  connect-IsSound :
      (c : Component) (fails : Option Exception) (s : Manager B)
      → connected s.events ≡ []
      → s.disk_monitor_task ≡ false
      → polls s.events ≡ false
      → health s.events ≡ unknown_health
      → IsSound c (connect_to get_state set_state c fails s).1
  unfolding connect_to connect_to_api
  connect-IsSound smrb (some e) s apis task poll h =
      let e1 = stored not_established s.base in ground arith
  connect-IsSound recv (some e) s apis task poll h =
      let e1 = stored not_established s.base in ground arith
  connect-IsSound dsp (some e) s apis task poll h =
      let e1 = stored not_established s.base in ground arith
  connect-IsSound stat (some e) s apis task poll h =
      let e1 = stored not_established s.base in ground arith
  connect-IsSound smrb none s apis task poll h =
      let e1 = stored established (set_state not_established s.base) in ground arith
  connect-IsSound recv none s apis task poll h =
      let e1 = stored established (set_state not_established s.base) in ground arith
  connect-IsSound dsp none s apis task poll h =
      let e1 = stored established (set_state not_established s.base) in ground arith
  connect-IsSound stat none s apis task poll h =
      let e1 = stored established (set_state not_established s.base) in ground arith

  disconnect-IsSound :
      (c : Component) (s : Manager B)
      → connected (Event.disconnect s.api ∷ s.events) ≡ []
      → s.disk_monitor_task ≡ expected_task c (get_state s.base)
      → polls s.events ≡ expected_task c (get_state s.base)
      → IsSound c (disconnect_from get_state set_state c s).1
        × (get_state (disconnect_from get_state set_state c s).1.base ≡ disabled)
  unfolding disconnect_from stop_disk_monitor_task disconnect_from_api
  disconnect-IsSound smrb s apis task poll = let e1 = stored disabled s.base in ground arith
  disconnect-IsSound recv s apis task poll = let e1 = stored disabled s.base in ground arith
  disconnect-IsSound stat s apis task poll = let e1 = stored disabled s.base in ground arith
  disconnect-IsSound dsp s apis task poll = let e1 = stored disabled s.base in ground arith

  start-IsSound :
      (c : Component) (fails : Option Exception) (s : Manager B)
      → IsSound c s
      → IsSound c (start_communicating get_state set_state c fails s).1
  unfolding start_communicating handle_communication_state_change
  start-IsSound c fails s sound = elim (status-cases (get_state s.base)) [
    | inl e ↦ let k = connect-IsSound c fails s in ground arith
    | inr n ↦ ground arith
  ]

  stop-IsSound :
      (c : Component) (s : Manager B)
      → IsSound c s
      → IsSound c (stop_communicating get_state set_state c s).1
        × (get_state (stop_communicating get_state set_state c s).1.base ≡ disabled)
  unfolding stop_communicating handle_communication_state_change
  stop-IsSound c s sound = elim (status-cases (get_state s.base)) [
    | inl e ↦ ground arith
    | inr n ↦ let k = disconnect-IsSound c s in ground arith
  ]

  stop_returns :
      (c : Component) (s : Manager B) → (stop_communicating get_state set_state c s).0 ≡ returned tt
  unfolding stop_communicating handle_communication_state_change disconnect_from
      stop_disk_monitor_task disconnect_from_api
  stop_returns smrb s = ground arith
  stop_returns recv s = ground arith
  stop_returns dsp s = ground arith
  stop_returns stat s = ground arith

  -- A new API keeps a manager sound that is not connected.
  update-IsSound :
      (c : Component) (s : Manager B)
      → get_state s.base ≢ established
      → IsSound c s
      → IsSound c (update_api s).1
  update-IsSound c s n sound = elim (status-cases (get_state s.base)) [
    | inl e ↦ ground arith
    | inr e ↦ ground arith
  ]

  changed_established :
      (c : Component) (fails : Option Exception) (s : Manager B)
      → get_state s.base ≡ established
      → (simulation_mode_changed get_state set_state c fails s).1
        ≡ (start_communicating get_state set_state c fails
            (update_api (stop_communicating get_state set_state c s).1).1).1
  unfolding simulation_mode_changed
  changed_established c fails s e = let r = stop_returns c s in ground arith

  changed-IsSound :
      (c : Component) (fails : Option Exception) (s : Manager B)
      → IsSound c s
      → IsSound c (simulation_mode_changed get_state set_state c fails s).1
  unfolding simulation_mode_changed
  changed-IsSound c fails s sound = elim (status-cases (get_state s.base)) [
    | inl e ↦ let u = update-IsSound c s (λ e'. ground arith) sound in ground arith
    | inr (inl e) ↦ let u = update-IsSound c s (λ e'. ground arith) sound in ground arith
    | inr (inr e) ↦
        let (stopped, d) = stop-IsSound c s sound in
        subst (IsSound c) (sym (changed_established c fails s e)) (
          start-IsSound c fails _ (
            update-IsSound c (stop_communicating get_state set_state c s).1 (λ e'. ground arith)
              stopped))
  ]

  mode-IsSound :
      (c : Component) (mode : SimulationMode) (fails : Option Exception) (s : Manager B)
      → IsSound c s
      → IsSound c (set_simulation_mode get_state set_state c mode fails s).1
  unfolding set_simulation_mode
  mode-IsSound c mode fails s sound =
      let k = changed-IsSound c fails (record s { simulation_mode = mode }) in ground arith

  perform-IsSound :
      (c : Component) (op : Operation) (s : Manager B)
      → IsSound c s
      → IsSound c (perform get_state set_state c op s)
  perform-IsSound c (starts fails) s sound = start-IsSound c fails s sound
  perform-IsSound c stops s sound = (stop-IsSound c s sound).0
  perform-IsSound c (sets_mode mode fails) s sound = mode-IsSound c mode fails s sound

  perform_all-IsSound :
      (c : Component) (ops : List Operation) (s : Manager B)
      → IsSound c s
      → IsSound c (perform_all get_state set_state c ops s)
  perform_all-IsSound c [] s sound = sound
  perform_all-IsSound c (op ∷ ops) s sound =
      perform_all-IsSound c ops (perform get_state set_state c op s) (perform-IsSound c op s sound)

  -- After any sequence of starts, stops and changes of the simulation mode, with connections that
  -- succeed or fail, from a new manager: in ESTABLISHED the current API, and no other, is connected, the
  -- health told last is OK, and DSP has a disk monitor task, which was told last to start; in any other
  -- communication state no API is connected, and the health told last, if any, is UNKNOWN. In any other
  -- state, and for the other components, there is no such task, and the last one, if any, was told to
  -- stop.
  pub current_api_connected :
      (c : Component) (ops : List Operation) (base : B) (mode : SimulationMode)
      → get_state base ≡ disabled
      → let s = perform_all get_state set_state c ops (new_manager base mode) in
        (connected s.events ≡ expected_apis (get_state s.base) s.api)
        × (s.disk_monitor_task ≡ expected_task c (get_state s.base))
        × (polls s.events ≡ expected_task c (get_state s.base))
        × (health s.events ≡ expected_health (get_state s.base))
  current_api_connected c ops base mode new =
      perform_all-IsSound c ops (new_manager base mode) (ground arith)
