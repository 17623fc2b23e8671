-- ===== src/Process/Reactions.antt =====
-- How the operations of a process's client answer to what gRPC comes to
-- (src/ska_pst_lmc/component/process_api.py, `PstProcessApiGrpc`).
use ska_pst_lmc.Prelude.{
  String, ◌≡◌, refl, ◌≢◌, ◌⊎◌, inl, inr, true, false, Option, none, some, List, ◌∷◌, arith,
}
use ska_pst_lmc.Effects.{Result, returned, raised}
use ska_pst_lmc.Process.{
  GrpcException, Kind, already_scanning, not_scanning, invalid_request, resources_already_assigned,
  resources_not_assigned, scan_configured_already, not_configured_for_scan,
}
use ska_pst_lmc.Process.Api.{
  Request, Call, grpc_call, stop_monitoring, push_resourced, push_configured, push_scanning,
  push_reset, push_obsfault, task_callback, in_progress_status, completed_status, failed_status,
  Exception, grpc_exception, validation_error, other_exception, LogLevel, LoggingLevel, error_level,
  off_level, fatal_level, warning_level, info_level, debug_level, log_level_map, Api, fault,
  api_configure_beam, api_deconfigure_beam, api_configure_scan, api_deconfigure_scan,
  api_start_scan, api_stop_scan, api_abort, api_reset, validate_configure_beam,
  validate_configure_scan, api_set_log_level,
}

-- The operations that report to a task, with the message that the request was made into.
pub data Operation (M : Type 0) : Type 0 where
  configure_beam configure_scan start_scan : M → Operation M
  deconfigure_beam deconfigure_scan stop_scan abort reset : Operation M

-- What an exception of a kind means for an operation: the process is already in the state that is
-- asked for, or the request is refused, or anything else, which is a fault.
pub data Meaning : Type 0 where
  already refused faulty : Meaning

module _ {M : Type 0} where
  abbrev pub request : Operation M → Request M
  request (configure_beam m) = Request.configure_beam m false
  request (configure_scan m) = Request.configure_scan m false
  request (start_scan m) = Request.start_scan m
  request deconfigure_beam = Request.deconfigure_beam
  request deconfigure_scan = Request.deconfigure_scan
  request stop_scan = Request.stop_scan
  request abort = Request.abort
  request reset = Request.reset

  abbrev pub new_state : Operation M → Call M
  new_state (configure_beam m) = push_resourced true
  new_state (configure_scan m) = push_configured true
  new_state (start_scan m) = push_scanning true
  new_state deconfigure_beam = push_resourced false
  new_state deconfigure_scan = push_configured false
  new_state stop_scan = push_scanning false
  new_state abort = push_scanning false
  new_state reset = push_reset

  abbrev pub meaning : Operation M → Kind → Meaning
  meaning (configure_beam m) resources_already_assigned = refused
  meaning (configure_scan m) scan_configured_already = refused
  meaning (start_scan m) already_scanning = already
  meaning deconfigure_beam resources_not_assigned = already
  meaning deconfigure_scan not_configured_for_scan = already
  meaning stop_scan not_scanning = already
  meaning _ _ = faulty

  -- Deconfiguring passes the process's message on; a scan does not.
  abbrev already_result : Operation M → String → String
  already_result deconfigure_beam message = message
  already_result deconfigure_scan message = message
  already_result _ message = "Completed"

  abbrev pub asked : Operation M → List (Call M) → List (Call M)
  asked stop_scan cs =
      grpc_call Request.stop_scan ∷ stop_monitoring ∷ task_callback in_progress_status none ∷ cs
  asked abort cs =
      grpc_call Request.abort ∷ stop_monitoring ∷ task_callback in_progress_status none ∷ cs
  asked op cs = grpc_call (request op) ∷ task_callback in_progress_status none ∷ cs

  abbrev pub answered : Operation M → GrpcException → Meaning → List (Call M) → List (Call M)
  answered op x already cs =
      task_callback completed_status (some (already_result op x.message)) ∷ new_state op ∷ cs
  answered op x refused cs = task_callback failed_status (some x.message) ∷ cs
  answered op x faulty cs =
      task_callback failed_status (some x.message)
      ∷ grpc_call Request.go_to_fault
      ∷ push_obsfault
      ∷ cs

  abbrev pub reaction : Operation M → Option GrpcException → List (Call M) → List (Call M)
  reaction op none cs =
      task_callback completed_status (some "Completed") ∷ new_state op ∷ asked op cs
  reaction op (some x) cs = answered op x (meaning op x.kind) (asked op cs)

module _ {M : Type 0} (grpc : Request M → Option GrpcException) where
  abbrev pub run : Operation M → Api grpc
  run (configure_beam m) = api_configure_beam grpc (returned m)
  run (configure_scan m) = api_configure_scan grpc (returned m)
  run (start_scan m) = api_start_scan grpc (returned m)
  run deconfigure_beam = api_deconfigure_beam grpc
  run deconfigure_scan = api_deconfigure_scan grpc
  run stop_scan = api_stop_scan grpc
  run abort = api_abort grpc
  run reset = api_reset grpc

  fault_lem :
      (cs : List (Call M))
      → fault grpc cs ≡ (returned tt, grpc_call Request.go_to_fault ∷ push_obsfault ∷ cs)
  unfolding fault
  fault_lem cs = ground arith

  -- Every operation reports IN_PROGRESS, asks the process once, and returns. When the process accepts,
  -- or is already in the state asked for, the component's new state is pushed and COMPLETED reported.
  -- When it refuses the request, FAILED is reported and no state pushed. Any other exception puts
  -- component and process into fault before FAILED is reported. Scans stop monitoring before they ask.
  pub operation_lem :
      (op : Operation M) (cs : List (Call M))
      → run op cs ≡ (returned tt, reaction op (grpc (request op)) cs)
  unfolding api_configure_beam api_deconfigure_beam api_configure_scan api_deconfigure_scan
      api_start_scan api_stop_scan api_abort api_reset fault
  operation_lem (configure_beam m) cs = ground arith
  operation_lem (configure_scan m) cs = ground arith
  operation_lem (start_scan m) cs = ground arith
  operation_lem deconfigure_beam cs = ground arith
  operation_lem deconfigure_scan cs = ground arith
  operation_lem stop_scan cs = ground arith
  operation_lem abort cs = ground arith
  operation_lem reset cs = ground arith

  -- The outcome of a dry run: an invalid request, or one that the process's state excludes, is a
  -- validation error with the process's message; any other exception goes on as it is.
  abbrev pub verdict : Kind → Option GrpcException → Result Exception Unit
  verdict excluded none = returned tt
  verdict excluded (some x) = elim x.kind [
    | invalid_request ↦ raised (validation_error x.message)
    | resources_already_assigned ↦ elim excluded [
      | resources_already_assigned ↦ raised (validation_error x.message)
      | _ ↦ raised (grpc_exception x)
    ]
    | scan_configured_already ↦ elim excluded [
      | scan_configured_already ↦ raised (validation_error x.message)
      | _ ↦ raised (grpc_exception x)
    ]
    | _ ↦ raised (grpc_exception x)
  ]

  -- Both validations make one dry run and neither push a state nor report a status. They raise a
  -- validation error exactly for an invalid request and for one that the process's state excludes, and
  -- let any other exception through.
  pub validation_lem :
      (m : M) (cs : List (Call M))
      → (validate_configure_beam grpc (returned m) cs ≡ (
        verdict resources_already_assigned (grpc (Request.configure_beam m true)),
        grpc_call (Request.configure_beam m true) ∷ cs,
      ))
        × (validate_configure_scan grpc (returned m) cs ≡ (
          verdict scan_configured_already (grpc (Request.configure_scan m true)),
          grpc_call (Request.configure_scan m true) ∷ cs,
        ))
  unfolding validate_configure_beam validate_configure_scan
  validation_lem m cs = (ground arith, ground arith)

  -- Setting the log level returns whatever the process answers, after one call, for every level but
  -- ERROR; for ERROR it raises a KeyError and calls nothing.
  pub set_log_level_lem :
      (level : LoggingLevel) (cs : List (Call M))
      → ((level ≡ error_level)
          × (api_set_log_level grpc level cs ≡ (raised (other_exception "KeyError"), cs)))
        ⊎ ((level ≢ error_level)
            × ((n : LogLevel) × (log_level_map level ≡ some n)
                × (api_set_log_level grpc level cs
                    ≡ (returned tt, grpc_call (Request.set_log_level n) ∷ cs))))
  unfolding api_set_log_level
  set_log_level_lem error_level cs = inl (refl, refl)
  set_log_level_lem off_level cs = inr ((λ e. cc), (_, refl, ground arith))
  set_log_level_lem fatal_level cs = inr ((λ e. cc), (_, refl, ground arith))
  set_log_level_lem warning_level cs = inr ((λ e. cc), (_, refl, ground arith))
  set_log_level_lem info_level cs = inr ((λ e. cc), (_, refl, ground arith))
  set_log_level_lem debug_level cs = inr ((λ e. cc), (_, refl, ground arith))
