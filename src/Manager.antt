-- ===== src/Manager.antt =====
-- The component managers of SMRB, RECV, DSP and STAT (src/ska_pst_lmc/component/component_manager.py and
-- the `_component_manager.py` modules of the four): the tasks of their commands, over the client of the
-- process. A task runs in the background, and an exception that leaves it is reported by the library.
pub mod Reports
pub mod Connection
pub mod Connected
pub mod Failed
mod Examples
use ska_pst_lmc.Prelude.{
  String, Bool, true, false, Option, none, some, List, [], ◌∷◌, ◌++◌, map, if◌then◌else◌,
}
use ska_pst_lmc.Effects.{
  Result, returned, raised, Act, ◌>>=◌, ◌>>◌, try_except, pure, modify, from_result, unless_raised,
}
use ska_pst_lmc.Process.{GrpcException}
use ska_pst_lmc.Process.Api.{
  Request, Call, task_callback, in_progress_status, completed_status, Exception, other_exception,
  fault, api_configure_beam, api_deconfigure_beam, api_configure_scan, api_deconfigure_scan,
  api_start_scan, api_stop_scan, api_abort, api_reset, validate_configure_beam,
  validate_configure_scan,
}

pub data Component : Type 0 where
  smrb recv dsp stat : Component

-- `M` are the protobuf messages and `C` the resources of a beam. A call is one of the client, or one of
-- the manager's own: to the task's callback with an exception, to the client's `monitor` and `get_env`, to the handler
-- of the monitoring data, to the device, or the setter of `subband_beam_configuration`.
pub data Effect (M C : Type 0) : Type 0 where
  of_api : Call M → Effect M C
  report_failed : Exception → Effect M C
  monitor get_env reset_monitor_data disk_stats_updated health_ok : Effect M C
  subband_beam_configuration : Option C → Effect M C
  handle_fault : String → Effect M C

-- The exception of a call of `None`.
abbrev pub not_callable : Exception
not_callable = other_exception "'NoneType' object is not callable"

-- The properties `data_host` and `subband_udp_ports` of RECV, which ask the client until they know.
abbrev pub recv_env : Bool → Bool → Option Exception → Option Exception → List (Option Exception)
recv_env host_known ports_known host ports =
    (if host_known then [] else host ∷ []) ++ (if ports_known then [] else ports ∷ [])

-- The state is the list of the calls, the latest first.
abbrev pub Task : Type 0 → Type 0 → Type 0
Task M C = Act (List (Effect M C)) Exception Unit

module _ {M C : Type 0} where
  abbrev pub tell : Effect M C → Task M C
  tell c = modify (λ cs. c ∷ cs)

  -- An operation of the client, with the calls that it makes.
  abbrev pub lift : Act (List (Call M)) Exception Unit → Task M C
  lift m es = let (r, cs) = m [] in (r, map of_api cs ++ es)

  abbrev pub report : Call M → Task M C
  report c = tell (of_api c)

  -- `DspComponentManager._get_disk_stats_from_api`: `env` is the exception, if any, of reading and
  -- storing the values.
  abbrev pub get_disk_stats_from_api : Option Exception → Task M C
  get_disk_stats_from_api env = tell get_env >> unless_raised env >> tell disk_stats_updated

  -- Reads of values that the client's `get_env` gives, with the exception, if any, of each.
  abbrev pub read_env : List (Option Exception) → Task M C
  read_env [] = pure tt
  read_env (answer ∷ answers) = tell get_env >> unless_raised answer >> read_env answers

  -- `_task_callback` of `obsreset`: COMPLETED makes the health OK first.
  abbrev pub with_health : List (Call M) → List (Effect M C)
  with_health [] = []
  with_health (task_callback completed_status result ∷ cs) =
      of_api (task_callback completed_status result) ∷ health_ok ∷ with_health cs
  with_health (c ∷ cs) = of_api c ∷ with_health cs

module _ {M C : Type 0} (grpc : Request M → Option GrpcException) where
  -- The `_task` of `validate_configure_scan`. `has_callback` is whether `task_callback` is not `None`,
  -- `env` are the reads of `recv_env` or none, `resources` is what the calculation comes to, and the
  -- messages are what `_get_configure_beam_request` and `_get_configure_scan_request` come to.
  unfoldable pub validate_configure_scan_task :
      Bool
      → List (Option Exception)
      → Result Exception C
      → (C → Result Exception M)
      → Result Exception M
      → Task M C
  validate_configure_scan_task false env resources beam_message scan_message =
      from_result (raised not_callable)
  validate_configure_scan_task true env resources beam_message scan_message =
      report (task_callback in_progress_status none)
      >> try_except
          (read_env env >> from_result resources >>= λ c.
            lift (validate_configure_beam grpc (beam_message c))
            >> lift (validate_configure_scan grpc scan_message)
            >> report (task_callback completed_status (some "Completed")))
          (λ e. tell (report_failed e))

  -- RECV calculates its resources in the task, the others before they submit it.
  unfoldable pub recv_configure_beam_task :
      List (Option Exception) → Result Exception C → (C → Result Exception M) → Task M C
  recv_configure_beam_task env resources message = read_env env >> from_result resources >>= λ c.
      lift (api_configure_beam grpc (message c)) >> tell (subband_beam_configuration (some c))

  unfoldable pub smrb_configure_beam :
      Result Exception C → (C → Result Exception M) → Result Exception (Task M C)
  smrb_configure_beam (returned c) message = returned (lift (api_configure_beam grpc (message c)))
  smrb_configure_beam (raised e) message = raised e

  unfoldable pub stat_configure_beam :
      Result Exception C → (C → Result Exception M) → Result Exception (Task M C)
  stat_configure_beam (returned c) message = returned (lift (api_configure_beam grpc (message c)))
  stat_configure_beam (raised e) message = raised e

  unfoldable pub dsp_configure_beam :
      Option Exception → Result Exception C → (C → Result Exception M) → Result Exception (Task M C)
  dsp_configure_beam env (returned c) message =
      returned (lift (api_configure_beam grpc (message c)) >> get_disk_stats_from_api env)
  dsp_configure_beam env (raised e) message = raised e

  -- The result is the task, or what the call of `configure_beam` raises. `reads` are those of RECV, and
  -- `env` is DSP's.
  unfoldable pub configure_beam :
      Component
      → List (Option Exception)
      → Option Exception
      → Result Exception C
      → (C → Result Exception M)
      → Result Exception (Task M C)
  configure_beam recv reads env resources message =
      returned (recv_configure_beam_task reads resources message)
  configure_beam smrb reads env resources message = smrb_configure_beam resources message
  configure_beam stat reads env resources message = stat_configure_beam resources message
  configure_beam dsp reads env resources message = dsp_configure_beam env resources message

  unfoldable pub recv_deconfigure_beam_task : Task M C
  recv_deconfigure_beam_task =
      lift (api_deconfigure_beam grpc) >> tell (subband_beam_configuration none)

  unfoldable pub deconfigure_beam_task : Component → Task M C
  deconfigure_beam_task recv = recv_deconfigure_beam_task
  deconfigure_beam_task smrb = lift (api_deconfigure_beam grpc)
  deconfigure_beam_task dsp = lift (api_deconfigure_beam grpc)
  deconfigure_beam_task stat = lift (api_deconfigure_beam grpc)

  unfoldable pub configure_scan_task : Result Exception M → Task M C
  configure_scan_task message = lift (api_configure_scan grpc message)

  unfoldable pub deconfigure_scan_task : Task M C
  deconfigure_scan_task = lift (api_deconfigure_scan grpc)

  -- The four components have the same `_task` here.
  unfoldable pub start_scan_task : Result Exception M → Task M C
  start_scan_task message = lift (api_start_scan grpc message) >> tell monitor

  unfoldable pub stop_scan_task : Task M C
  stop_scan_task = lift (api_stop_scan grpc) >> tell reset_monitor_data

  -- Not a task: the client is called at once.
  unfoldable pub abort : Task M C
  abort = lift (api_abort grpc)

  unfoldable pub obsreset_task : Task M C
  obsreset_task es = let (r, cs) = api_reset grpc [] in (r, with_health cs ++ es)

  unfoldable pub go_to_fault_task : String → Task M C
  go_to_fault_task message =
      report (task_callback in_progress_status none)
      >> lift (fault grpc)
      >> tell (handle_fault message)
      >> report (task_callback completed_status (some "Completed"))
