-- ===== src/Manager/Examples.antt =====
-- The theorems on the component managers, on concrete processes.
use ska_pst_lmc.Prelude.{◌≡◌, refl, String, Option, none, some, List, [], ◌∷◌, arith}
use ska_pst_lmc.Effects.{Result, returned, raised}
use ska_pst_lmc.Process.{GrpcException, resources_already_assigned}
use ska_pst_lmc.Process.Api.{
  Request, grpc_call, push_obsfault, task_callback, in_progress_status, failed_status, Exception,
  other_exception,
}
use ska_pst_lmc.Manager.{recv, dsp, of_api, monitor, start_scan_task}
use ska_pst_lmc.Manager.Reports.{failed_start_is_monitored}
use ska_pst_lmc.Manager.Connection.{
  CommunicationStatus, disabled, not_established, established, simulation_true, simulation_false,
  new_manager, Operation, starts, sets_mode, set_simulation_mode, simulation_mode_changed,
  stop_communicating, handle_communication_state_change, connect_to, connect_to_api,
  disconnect_from, stop_disk_monitor_task, disconnect_from_api, start_communicating, perform_all,
  connected,
}
use ska_pst_lmc.Manager.Connected.{
  current_api_connected, expected_apis, expected_task, expected_health, health, polls,
}
use ska_pst_lmc.Manager.Failed.{failed_connect_stays}

abbrev busy : GrpcException
busy = record { kind = resources_already_assigned; message = "busy" }

-- A process that refuses everything.
abbrev refuses : Request String → Option GrpcException
refuses r = some busy

failed_start_is_monitored_example : start_scan_task {C = String} refuses (returned "scan") [] ≡ (
  returned tt,
  monitor
      ∷ of_api (task_callback failed_status (some "busy"))
      ∷ of_api (grpc_call Request.go_to_fault)
      ∷ of_api push_obsfault
      ∷ of_api (grpc_call (Request.start_scan "scan"))
      ∷ of_api (task_callback in_progress_status none)
      ∷ [],
)
failed_start_is_monitored_example =
    failed_start_is_monitored refuses "scan" busy [] refl (λ e. ground arith)

abbrev to_message : String → Result Exception String
to_message c = returned c

abbrev itself : CommunicationStatus → CommunicationStatus
itself c = c

abbrev replaced : CommunicationStatus → CommunicationStatus → CommunicationStatus
replaced c b = c

abbrev replaced_stored : (c b : CommunicationStatus) → itself (replaced c b) ≡ c
replaced_stored c b = refl

abbrev some_operations : List Operation
some_operations = starts none ∷ sets_mode simulation_false none ∷ []

current_api_connected_example :
    let s =
      perform_all itself replaced dsp some_operations (new_manager disabled simulation_true) in
    (connected s.events ≡ expected_apis (itself s.base) s.api)
    × (s.disk_monitor_task ≡ expected_task dsp (itself s.base))
    × (polls s.events ≡ expected_task dsp (itself s.base))
    × (health s.events ≡ expected_health (itself s.base))
current_api_connected_example =
    current_api_connected itself replaced replaced_stored dsp some_operations disabled
      simulation_true refl

-- What the operations of the example come to.
two_apis :
    let s =
      perform_all itself replaced dsp some_operations (new_manager disabled simulation_true) in
    (connected s.events ≡ 1 ∷ []) × (s.base ≡ established)
unfolding set_simulation_mode simulation_mode_changed start_communicating stop_communicating
    handle_communication_state_change connect_to connect_to_api disconnect_from
    stop_disk_monitor_task disconnect_from_api
two_apis = (refl, refl)

abbrev unavailable : Exception
unavailable = other_exception "unavailable"

failed_connect_stays_example :
    let (r, failed) =
      start_communicating itself replaced recv
        (some unavailable)
        (new_manager disabled simulation_true) in
    let later = perform_all itself replaced recv some_operations failed in
    (r ≡ raised unavailable) × (later.base ≡ not_established) × (later.events ≡ [])
failed_connect_stays_example =
    failed_connect_stays itself replaced replaced_stored recv unavailable some_operations
      (new_manager disabled simulation_true) refl ((λ e. cc), ((λ e. cc), tt))
