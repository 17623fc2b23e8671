-- ===== src/Process/Api.antt =====
-- The operations of `PstProcessApiGrpc` (src/ska_pst_lmc/component/process_api.py). `grpc` says with
-- which exception, if any, a call of the gRPC client ends; the callbacks of the component manager
-- return. `_stop_monitoring` is the model's `Monitor`, and one call here.
use ska_pst_lmc.Prelude.{String, Bool, true, false, Option, none, some, List, ◌∷◌}
use ska_pst_lmc.Effects.{
  Result, returned, raised, Act, ◌>>=◌, ◌>>◌, try_except, pure, modify, from_result,
}
use ska_pst_lmc.Process.{
  GrpcException, already_scanning, not_scanning, invalid_request, resources_already_assigned,
  resources_not_assigned, scan_configured_already, not_configured_for_scan,
}

-- The protobuf `LogLevel`.
pub data LogLevel : Type 0 where
  info debug warning error critical : LogLevel

-- What the client asks of the process; `M` are the protobuf messages.
pub data Request (M : Type 0) : Type 0 where
  configure_beam configure_scan : M → Bool → Request M
  start_scan : M → Request M
  deconfigure_beam deconfigure_scan stop_scan abort reset go_to_fault : Request M
  set_log_level : LogLevel → Request M

-- `LoggingLevel` of ska_tango_base.
pub data LoggingLevel : Type 0 where
  off_level fatal_level error_level warning_level info_level debug_level : LoggingLevel

pub data TaskStatus : Type 0 where
  in_progress_status completed_status failed_status : TaskStatus

pub data Exception : Type 0 where
  grpc_exception : GrpcException → Exception
  validation_error : String → Exception
  other_exception : String → Exception

-- A call out of the API: to the process, to the component manager, or to the task's callback.
pub data Call (M : Type 0) : Type 0 where
  grpc_call : Request M → Call M
  stop_monitoring : Call M
  push_resourced push_configured push_scanning : Bool → Call M
  push_reset push_obsfault : Call M
  task_callback : TaskStatus → Option String → Call M

module _ {M : Type 0} (grpc : Request M → Option GrpcException) where
  -- The state is the list of the calls, the latest first.
  abbrev pub Api : Type 0
  Api = Act (List (Call M)) Exception Unit

  abbrev pub tell : Call M → Api
  tell c = modify (λ cs. c ∷ cs)

  abbrev pub ask : Request M → Api
  ask r cs = elim (grpc r) [
    | none ↦ (returned tt, grpc_call r ∷ cs)
    | some x ↦ (raised (grpc_exception x), grpc_call r ∷ cs)
  ]

  -- `except` clauses for gRPC exceptions; any other exception goes on.
  abbrev pub except_grpc : Api → (GrpcException → Api) → Api
  except_grpc m handler = try_except m (λ e. elim e [
    | grpc_exception x ↦ handler x
    | validation_error msg ↦ from_result (raised (validation_error msg))
    | other_exception msg ↦ from_result (raised (other_exception msg))
  ])

  abbrev pub completed : Option String → Api
  completed result = tell (task_callback completed_status result)

  unfoldable pub fault : Api
  fault = except_grpc (tell push_obsfault >> ask go_to_fault) (λ x. pure tt)

  -- The handlers' last `except BaseGrpcException`.
  abbrev pub fail_with_fault : GrpcException → Api
  unfolding fault
  fail_with_fault x = fault >> tell (task_callback failed_status (some x.message))

  abbrev pub refuse : GrpcException → Api
  refuse x = tell (task_callback failed_status (some x.message))

  -- `message` is what `_get_configure_beam_request` comes to, outside the `try`.
  unfoldable pub api_configure_beam : Result Exception M → Api
  api_configure_beam message =
      tell (task_callback in_progress_status none) >> from_result message >>= λ m.
      except_grpc
        (ask (configure_beam m false) >> tell (push_resourced true) >> completed (some "Completed"))
        (λ x. elim x.kind [ resources_already_assigned ↦ refuse x | _ ↦ fail_with_fault x ])

  unfoldable pub api_deconfigure_beam : Api
  api_deconfigure_beam =
      tell (task_callback in_progress_status none)
      >> except_grpc
          (ask deconfigure_beam >> tell (push_resourced false) >> completed (some "Completed"))
          (λ x. elim x.kind [
            | resources_not_assigned ↦ tell (push_resourced false) >> completed (some x.message)
            | _ ↦ fail_with_fault x
          ])

  unfoldable pub api_configure_scan : Result Exception M → Api
  api_configure_scan message =
      tell (task_callback in_progress_status none) >> from_result message >>= λ m.
      except_grpc
        (ask (configure_scan m false)
          >> tell (push_configured true)
          >> completed (some "Completed"))
        (λ x. elim x.kind [ scan_configured_already ↦ refuse x | _ ↦ fail_with_fault x ])

  unfoldable pub api_deconfigure_scan : Api
  api_deconfigure_scan =
      tell (task_callback in_progress_status none)
      >> except_grpc
          (ask deconfigure_scan >> tell (push_configured false) >> completed (some "Completed"))
          (λ x. elim x.kind [
            | not_configured_for_scan ↦ tell (push_configured false) >> completed (some x.message)
            | _ ↦ fail_with_fault x
          ])

  unfoldable pub api_start_scan : Result Exception M → Api
  api_start_scan message =
      tell (task_callback in_progress_status none) >> from_result message >>= λ m.
      except_grpc (ask (start_scan m) >> tell (push_scanning true) >> completed (some "Completed"))
        (λ x. elim x.kind [
          | already_scanning ↦ tell (push_scanning true) >> completed (some "Completed")
          | _ ↦ fail_with_fault x
        ])

  unfoldable pub api_stop_scan : Api
  api_stop_scan =
      tell (task_callback in_progress_status none)
      >> except_grpc
          (tell stop_monitoring
            >> ask stop_scan
            >> tell (push_scanning false)
            >> completed (some "Completed"))
          (λ x. elim x.kind [
            | not_scanning ↦ tell (push_scanning false) >> completed (some "Completed")
            | _ ↦ fail_with_fault x
          ])

  unfoldable pub api_abort : Api
  api_abort =
      tell (task_callback in_progress_status none)
      >> except_grpc
          (tell stop_monitoring
            >> ask abort
            >> tell (push_scanning false)
            >> completed (some "Completed"))
          fail_with_fault

  unfoldable pub api_reset : Api
  api_reset =
      tell (task_callback in_progress_status none)
      >> except_grpc (ask reset >> tell push_reset >> completed (some "Completed")) fail_with_fault

  unfoldable pub validate_configure_beam : Result Exception M → Api
  validate_configure_beam message = from_result message >>= λ m.
      except_grpc (ask (configure_beam m true)) (λ x. elim x.kind [
        | invalid_request ↦ from_result (raised (validation_error x.message))
        | resources_already_assigned ↦ from_result (raised (validation_error x.message))
        | _ ↦ from_result (raised (grpc_exception x))
      ])

  unfoldable pub validate_configure_scan : Result Exception M → Api
  validate_configure_scan message = from_result message >>= λ m.
      except_grpc (ask (configure_scan m true)) (λ x. elim x.kind [
        | invalid_request ↦ from_result (raised (validation_error x.message))
        | scan_configured_already ↦ from_result (raised (validation_error x.message))
        | _ ↦ from_result (raised (grpc_exception x))
      ])

abbrev pub log_level_map : LoggingLevel → Option LogLevel
log_level_map info_level = some info
log_level_map debug_level = some debug
log_level_map fatal_level = some critical
log_level_map warning_level = some warning
log_level_map off_level = some info
log_level_map error_level = none

module _ {M : Type 0} (grpc : Request M → Option GrpcException) where
  unfoldable pub api_set_log_level : LoggingLevel → Api grpc
  api_set_log_level level =
      except_grpc grpc
        (elim (log_level_map level) [
          | none ↦ from_result (raised (other_exception "KeyError"))
          | some n ↦ ask grpc (set_log_level n)
        ])
        (λ x. pure tt)
