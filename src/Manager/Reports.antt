-- ===== src/Manager/Reports.antt =====
-- What the tasks of the component managers report and do for each answer of the process
-- (src/ska_pst_lmc/component/component_manager.py and the `_component_manager.py` modules of the four).
use ska_pst_lmc.Prelude.{
  ◌≡◌, ◌≢◌, ap, ◌∙◌, true, Option, none, some, List, [], ◌∷◌, ◌++◌, map, arith,
}
use ska_pst_lmc.Effects.{Result, returned, raised, ◌>>◌, then_from}
use ska_pst_lmc.Process.{
  GrpcException, already_scanning, resources_already_assigned, scan_configured_already,
}
use ska_pst_lmc.Process.Api.{
  Request, grpc_call, push_obsfault, task_callback, in_progress_status, completed_status,
  failed_status, Exception, validate_configure_beam, validate_configure_scan,
}
use ska_pst_lmc.Process.Reactions.{
  Operation, start_scan, run, request, reaction, operation_lem, verdict,
}
use ska_pst_lmc.Manager.{
  Effect, of_api, report_failed, monitor, get_env, Task, tell, report, lift, start_scan_task,
}

-- The first exception of the reads.
abbrev pub first_exception : List (Option Exception) → Option Exception
first_exception [] = none
first_exception (some e ∷ env) = some e
first_exception (none ∷ env) = first_exception env

-- The resources, if the values that they need can be read.
abbrev pub calculated :
    {C : Type 0} → List (Option Exception) → Result Exception C → Result Exception C
calculated env resources = elim (first_exception env) [ none ↦ resources | some e ↦ raised e ]

module _ {M C : Type 0} where
  -- A call of `get_env` for each read up to the first that raises.
  abbrev pub env_calls : List (Option Exception) → List (Effect M C)
  env_calls [] = []
  env_calls (some e ∷ env) = get_env ∷ []
  env_calls (none ∷ env) = env_calls env ++ get_env ∷ []

module _ {M C : Type 0} (grpc : Request M → Option GrpcException) where
  -- An operation of the client inside a task.
  lift-run :
      (op : Operation M) (es : List (Effect M C))
      → lift (run grpc op) es ≡ (returned tt, map of_api (reaction op (grpc (request op)) []) ++ es)
  lift-run op es = ap (λ p. (p.0, map of_api p.1 ++ es)) (operation_lem grpc op [])

  -- When the process does not start the scan, and is not scanning already, FAILED is reported and the
  -- component is put into fault, but its data are monitored all the same.
  pub failed_start_is_monitored :
      (m : M) (x : GrpcException) (es : List (Effect M C))
      → grpc (Request.start_scan m) ≡ some x
      → x.kind ≢ already_scanning
      → start_scan_task grpc (returned m) es ≡ (
        returned tt,
        monitor
            ∷ of_api (task_callback failed_status (some x.message))
            ∷ of_api (grpc_call Request.go_to_fault)
            ∷ of_api push_obsfault
            ∷ of_api (grpc_call (Request.start_scan m))
            ∷ of_api (task_callback in_progress_status none)
            ∷ es,
      )
  unfolding start_scan_task
  failed_start_is_monitored m x es fails kind =
      then_from (lift (run grpc (start_scan m))) (λ _. tell monitor) es (lift-run (start_scan m) es)
      ∙ ground arith

  -- What the validation of a scan comes to: the calculation, the messages and both dry runs in turn.
  abbrev pub outcome :
      Result Exception C → (C → Result Exception M) → Result Exception M → Result Exception Unit
  outcome (raised e) beam_message scan_message = raised e
  outcome (returned c) beam_message scan_message = elim (beam_message c) [
    | raised e ↦ raised e
    | returned m ↦
        elim (verdict grpc resources_already_assigned (grpc (Request.configure_beam m true))) [
          | raised e ↦ raised e
          | returned u ↦ elim scan_message [
            | raised e ↦ raised e
            | returned m' ↦
                verdict grpc scan_configured_already (grpc (Request.configure_scan m' true))
          ]
        ]
  ]

  abbrev pub final : Result Exception Unit → Effect M C
  final (returned u) = of_api (task_callback completed_status (some "Completed"))
  final (raised e) = report_failed e

  -- The dry runs, the latest first: the beam's, and the scan's if the process accepts the first.
  abbrev pub dry_runs :
      Result Exception C → (C → Result Exception M) → Result Exception M → List (Effect M C)
  dry_runs (raised e) beam_message scan_message = []
  dry_runs (returned c) beam_message scan_message = elim (beam_message c) [
    | raised e ↦ []
    | returned m ↦ elim (grpc (Request.configure_beam m true)) [
      | some x ↦ of_api (grpc_call (Request.configure_beam m true)) ∷ []
      | none ↦ elim scan_message [
        | raised e ↦ of_api (grpc_call (Request.configure_beam m true)) ∷ []
        | returned m' ↦
            of_api (grpc_call (Request.configure_scan m' true))
            ∷ of_api (grpc_call (Request.configure_beam m true))
            ∷ []
      ]
    ]
  ]

  abbrev checked : (C → Result Exception M) → Result Exception M → C → Task M C
  checked beam_message scan_message c =
      lift (validate_configure_beam grpc (beam_message c))
      >> lift (validate_configure_scan grpc scan_message)
      >> report (task_callback completed_status (some "Completed"))
