-- ===== src/Process/Examples.antt =====
-- The client of a process on concrete answers of gRPC.
use ska_pst_lmc.Prelude.{String, ◌≡◌, refl, ◌≢◌, true, false, Option, none, some, [], ◌∷◌}
use ska_pst_lmc.Effects.{returned}
use ska_pst_lmc.Process.{GrpcException, resources_already_assigned, server_error}
use ska_pst_lmc.Process.Api.{
  Request, grpc_call, task_callback, push_obsfault, in_progress_status, failed_status,
  api_configure_scan,
}
use ska_pst_lmc.Process.Reactions.{configure_scan, operation_lem}
use ska_pst_lmc.Process.Monitor.{
  streaming, cleaning, returned as returned_monitoring, stop_scan, waiting_soon, waiting, through,
  Monitors, Step, stops_previous, stream_ends, Steps, here, next,
}
use ska_pst_lmc.Process.Monitor.Ends.{between, second_monitor_deadlocks, stop_misses_notification}

abbrev broken : GrpcException
broken = record { kind = server_error (some 13); message = "ring buffer lost" }

abbrev assigned : GrpcException
assigned = record { kind = resources_already_assigned; message = "already assigned" }

abbrev fails : Request String → Option GrpcException
fails (Request.configure_beam m dry_run) = some assigned
fails _ = some broken

operation_lem_example : api_configure_scan fails (returned "config") [] ≡ (
  returned tt,
  task_callback failed_status (some "ring buffer lost")
      ∷ grpc_call Request.go_to_fault
      ∷ push_obsfault
      ∷ grpc_call (Request.configure_scan "config" false)
      ∷ task_callback in_progress_status none
      ∷ [],
)
operation_lem_example = operation_lem fails (configure_scan "config") []

abbrev stopping_previous : Monitors
stopping_previous = record {
  abort_event = some true;
  locked = true;
  monitoring = streaming;
  stopping = waiting_soon;
}

abbrev stuck : Monitors
stuck = record {
  abort_event = some true;
  locked = true;
  monitoring = cleaning;
  stopping = waiting_soon;
}

second_monitor_deadlocks_example :
    (stuck.monitoring ≢ returned_monitoring) × (stuck.stopping ≢ through)
second_monitor_deadlocks_example =
    second_monitor_deadlocks stopping_previous stuck (stops_previous refl refl refl) refl
      (next here (stream_ends refl))

abbrev waiting_stop : Monitors
waiting_stop = record {
  abort_event = some true;
  locked = false;
  monitoring = streaming;
  stopping = waiting;
}

abbrev stopped : Monitors
stopped = record {
  abort_event = none;
  locked = false;
  monitoring = returned_monitoring;
  stopping = through;
}

stop_misses_notification_example :
    (y : Monitors) × Steps stop_scan (between (some true) streaming) y
    × (y.stopping ≡ waiting)
    × ((z : Monitors) → ¬ Step stop_scan y z)
stop_misses_notification_example = stop_misses_notification (some true) streaming
