-- ===== src/Manager/Failed.antt =====
-- What a component manager does after a connection that failed
-- (src/ska_pst_lmc/component/component_manager.py and dsp/dsp_component_manager.py).
use ska_pst_lmc.Prelude.{◌≡◌, ◌≢◌, refl, ◌∙◌, ap, Option, some, List, [], ◌∷◌, All, arith}
use ska_pst_lmc.Effects.{raised}
use ska_pst_lmc.Process.Api.{Exception}
use ska_pst_lmc.Manager.{Component, smrb, recv, dsp, stat}
use ska_pst_lmc.Manager.Connection.{
  CommunicationStatus, disabled, not_established, SimulationMode, Manager, Operation, starts, stops,
  sets_mode, connect_to_api, connect_to, handle_communication_state_change, start_communicating,
  simulation_mode_changed, set_simulation_mode, perform, perform_all, update_api,
}

module _ {B : Type 0} (get_state : B → CommunicationStatus)
    (set_state : CommunicationStatus → B → B)
    (stored : (c : CommunicationStatus) (b : B) → get_state (set_state c b) ≡ c) where
  start_stays :
      (c : Component) (fails : Option Exception) (s : Manager B)
      → get_state s.base ≡ not_established
      → (start_communicating get_state set_state c fails s).1 ≡ s
  unfolding start_communicating
  start_stays c fails s e = ground arith

  changed_stays :
      (c : Component) (fails : Option Exception) (s : Manager B)
      → get_state s.base ≡ not_established
      → (simulation_mode_changed get_state set_state c fails s).1 ≡ (update_api s).1
  unfolding simulation_mode_changed
  changed_stays c fails s e = ground arith

  mode_stays :
      (c : Component) (mode : SimulationMode) (fails : Option Exception) (s : Manager B)
      → get_state s.base ≡ not_established
      → ((set_simulation_mode get_state set_state c mode fails s).1.base ≡ s.base)
        × ((set_simulation_mode get_state set_state c mode fails s).1.events ≡ s.events)
  unfolding set_simulation_mode
  mode_stays c mode fails s e =
      let k = changed_stays c fails (record s { simulation_mode = mode }) e in ground arith

  perform_stays :
      (c : Component) (op : Operation) (s : Manager B)
      → op ≢ stops
      → get_state s.base ≡ not_established
      → ((perform get_state set_state c op s).base ≡ s.base)
        × ((perform get_state set_state c op s).events ≡ s.events)
  perform_stays c (starts fails) s n e = let k = start_stays c fails s e in ground arith
  perform_stays c stops s n e = absurd (n refl)
  perform_stays c (sets_mode mode fails) s n e = mode_stays c mode fails s e

  perform_all_stays :
      (c : Component) (ops : List Operation) (s : Manager B)
      → All (λ op. op ≢ stops) ops
      → get_state s.base ≡ not_established
      → ((perform_all get_state set_state c ops s).base ≡ s.base)
        × ((perform_all get_state set_state c ops s).events ≡ s.events)
  perform_all_stays c [] s n e = (refl, refl)
  perform_all_stays c (op ∷ ops) s (n, ns) e =
      let (b, v) = perform_stays c op s n e in
      let (b', v') =
        perform_all_stays c ops (perform get_state set_state c op s) ns (ap get_state b ∙ e) in
      (b' ∙ b, v' ∙ v)

  failed_start :
      (c : Component) (e : Exception) (s : Manager B)
      → get_state s.base ≡ disabled
      → ((start_communicating get_state set_state c (some e) s).0 ≡ raised e)
        × (get_state (start_communicating get_state set_state c (some e) s).1.base
            ≡ not_established)
        × ((start_communicating get_state set_state c (some e) s).1.events ≡ s.events)
  unfolding start_communicating handle_communication_state_change connect_to connect_to_api
  failed_start smrb e s d = let k = stored not_established s.base in ground arith
  failed_start recv e s d = let k = stored not_established s.base in ground arith
  failed_start dsp e s d = let k = stored not_established s.base in ground arith
  failed_start stat e s d = let k = stored not_established s.base in ground arith

  -- When the connection to the process fails, `start_communicating` raises the exception, and from then
  -- on the communication state is NOT_ESTABLISHED and nothing is asked of the process or told to the
  -- device, however often communication is started or the simulation mode changed, until communication
  -- is stopped.
  pub failed_connect_stays :
      (c : Component) (e : Exception) (ops : List Operation) (s : Manager B)
      → get_state s.base ≡ disabled
      → All (λ op. op ≢ stops) ops
      → let (r, failed) = start_communicating get_state set_state c (some e) s in
        let later = perform_all get_state set_state c ops failed in
        (r ≡ raised e) × (get_state later.base ≡ not_established) × (later.events ≡ s.events)
  failed_connect_stays c e ops s d n =
      let (r, k, v) = failed_start c e s d in
      let (b, v') =
        perform_all_stays c ops (start_communicating get_state set_state c (some e) s).1 n k in
      (r, ap get_state b ∙ k, v' ∙ v)
