-- ===== src/Beam/Commands.antt =====
-- The commands of the BEAM (src/ska_pst_lmc/beam/beam_component_manager.py): what each does before its
-- job is submitted, and what it does when the job has succeeded. `raises` says which call out of the
-- manager raises; `task_callback` is called directly, and is `None` when `has_callback` is false.
use ska_pst_lmc.Prelude.{
  ℕ, String, Bool, true, false, Option, none, some, List, [], ◌∷◌, lookup, insert, string_key,
  if◌then◌else◌,
}
use ska_pst_lmc.Effects.{
  Result, returned, raised, Act, ◌>>=◌, ◌>>◌, try_except, pure, modify, from_result, unless_raised,
}
use ska_pst_lmc.Job.{Outcome, success, failure}
use ska_pst_lmc.Beam.{
  Lambda, abort_in_progress, write_scan_config, BeamComponentManager, Configuration, Call,
  push_power, push_configured, push_scanning, push_obsfault, update_health_ok,
  subscribe_change_events, unsubscribe_change_events, abort_commands, handle_fault,
  property_callback, task_callback, on_power, off_power, standby_power, TaskStatus,
  in_progress_status, completed_status, failed_status,
}

-- What JSON and Python values the commands write, and the exceptions that they raise themselves.
pub record Values (V E : Type 0) : Type 0 where
  pub int : ℕ → V
  pub float_zero : V
  pub maxsize : V
  pub default_recording_time : V
  pub empty_dict : V
  pub text : String → V
  pub type_error : E
  pub key_error : String → E

module _ {V E : Type 0} (v : Values V E) where
  abbrev pub from_key : {A : Type 0} → String → Option A → Result E A
  from_key k none = raised (v.key_error k)
  from_key k (some a) = returned a

  -- `configuration["common"]["config_id"]`
  abbrev pub config_id_of : Configuration V → Result E V
  config_id_of configuration = elim configuration.common [
    | none ↦ raised (v.key_error "common")
    | some common ↦ from_key "config_id" (lookup "config_id" common)
  ]

  -- `{**common_configure, **pst_configuration}`
  abbrev pub merged : List (String × V) → List (String × V) → List (String × V)
  merged common [] = common
  merged common ((k, x) ∷ scan) = merged (insert k x common) scan

  abbrev both : Configuration V → Result E (List (String × V) × List (String × V))
  both configuration = elim configuration.common [
    | none ↦ raised (v.key_error "common")
    | some common ↦ elim configuration.pst_scan [
      | none ↦ raised (v.key_error "pst")
      | some scan ↦ returned (common, scan)
    ]
  ]

  -- The request, and the configuration, whose common section it writes to when the facility is Low.
  unfoldable pub as_pst_configure_scan_request :
      Bool → Configuration V → Result E (List (String × V) × Configuration V)
  as_pst_configure_scan_request is_low configuration = elim (both configuration) [
    | raised e ↦ raised e
    | returned sections ↦
        let common_configure =
          if is_low then insert "frequency_band" (v.text "low") (sections.0) else sections.0 in
        returned (
          merged common_configure sections.1,
          record configuration { common = some common_configure },
        )
  ]

  module _ (raises : Call V → Option E) (has_callback : Bool) where
    abbrev pub Beam : Type 0 → Type 0
    Beam A = Act (BeamComponentManager V) E A

    abbrev pub call : Call V → Beam Unit
    call c = modify (λ m. record m { calls = c ∷ m.calls }) >> unless_raised (raises c)

    abbrev pub report : TaskStatus → Beam Unit
    report status =
        if has_callback then call (task_callback status) else (λ m. (raised v.type_error, m))

    -- A setter writes the attribute, and then tells the device interface.
    abbrev pub set_property : String → V → Beam Unit
    set_property name x =
        modify (λ m. record m { properties = insert name x m.properties })
        >> call (property_callback name x)

    abbrev pub set_all : List (String × V) → Beam Unit
    set_all [] = pure tt
    set_all ((name, x) ∷ properties) = set_property name x >> set_all properties

    abbrev pub receive_properties : List (String × V)
    receive_properties =
        ("data_received", v.int 0)
        ∷ ("data_receive_rate", v.float_zero)
        ∷ ("data_dropped", v.int 0)
        ∷ ("data_drop_rate", v.float_zero)
        ∷ ("misordered_packets", v.int 0)
        ∷ ("misordered_packet_rate", v.float_zero)
        ∷ ("malformed_packets", v.int 0)
        ∷ ("malformed_packet_rate", v.float_zero)
        ∷ ("misdirected_packets", v.int 0)
        ∷ ("misdirected_packet_rate", v.float_zero)
        ∷ ("checksum_failure_packets", v.int 0)
        ∷ ("checksum_failure_packet_rate", v.float_zero)
        ∷ ("timestamp_sync_error_packets", v.int 0)
        ∷ ("timestamp_sync_error_packet_rate", v.float_zero)
        ∷ ("seq_number_sync_error_packets", v.int 0)
        ∷ ("seq_number_sync_error_packet_rate", v.float_zero)
        ∷ []

    abbrev pub record_properties : List (String × V)
    record_properties =
        ("data_record_rate", v.float_zero)
        ∷ ("data_recorded", v.int 0)
        ∷ ("available_recording_time", v.default_recording_time)
        ∷ ("ring_buffer_utilisation", v.float_zero)
        ∷ ("expected_data_record_rate", v.float_zero)
        ∷ ("channel_block_configuration", v.empty_dict)
        ∷ []

    abbrev pub disk_properties : List (String × V)
    disk_properties =
        ("disk_capacity", v.maxsize)
        ∷ ("disk_used_bytes", v.int 0)
        ∷ ("disk_used_percentage", v.float_zero)
        ∷ []

    unfoldable pub reset_monitoring_properties : Beam Unit
    reset_monitoring_properties =
        set_all receive_properties
        >> set_all record_properties
        >> modify (λ m. record m { config_id = v.text ""; scan_id = 0 })
        >> set_all disk_properties

    -- The callbacks of the module for a job that has succeeded.
    unfoldable pub on_completion : Beam Unit
    on_completion =
        try_except
          (call subscribe_change_events >> call (push_power on_power) >> report completed_status)
          (λ e. report failed_status)

    unfoldable pub off_completion : Beam Unit
    off_completion =
        try_except (call (push_power off_power) >> report completed_status)
          (λ e. report failed_status)

    unfoldable pub standby_completion : Beam Unit
    standby_completion = call (push_power standby_power) >> report completed_status

    unfoldable pub reset_completion : Beam Unit
    reset_completion = call (push_power off_power) >> report completed_status

    -- `bytes_per_second` is what `generate_dsp_scan_request(pst_configuration)["bytes_per_second"]`
    -- comes to.
    unfoldable pub configure_scan_completion : Configuration V → Result E V → Beam Unit
    configure_scan_completion configuration bytes_per_second =
        call (push_configured true) >> from_result (config_id_of configuration) >>= λ config_id.
        modify (λ m. record m { config_id = config_id; curr_scan_config = some configuration })
        >> from_result bytes_per_second
        >>= λ rate. set_property "expected_data_record_rate" rate >> report completed_status

    unfoldable pub deconfigure_scan_completion : Beam Unit
    unfolding reset_monitoring_properties
    deconfigure_scan_completion =
        modify (λ m. record m { curr_scan_config = none })
        >> call (push_configured false)
        >> reset_monitoring_properties
        >> report completed_status

    -- `scan_id` is `int(scan_id)`.
    unfoldable pub start_scan_completion : ℕ → Beam Unit
    start_scan_completion scan_id =
        call (push_scanning true)
        >> modify (λ m. record m { scan_id = scan_id })
        >> report completed_status

    unfoldable pub stop_scan_completion : Beam Unit
    stop_scan_completion =
        call (push_scanning false)
        >> modify (λ m. record m { scan_id = 0 })
        >> report completed_status

    unfoldable pub abort_completion : Beam Unit
    abort_completion = call (push_scanning false) >> call abort_commands >> report completed_status

    unfoldable pub obsreset_completion : Beam Unit
    obsreset_completion =
        call (push_configured false) >> call update_health_ok >> report completed_status

    unfoldable pub go_to_fault_completion : String → Beam Unit
    go_to_fault_completion fault_msg =
        call (push_obsfault true) >> report completed_status >> call (handle_fault fault_msg)

    -- `off` unsubscribes in the call, before its job is submitted.
    abbrev pub off_call : Beam Unit
    off_call = call unsubscribe_change_events

    -- `callback_safely(task_callback, status=status)`
    abbrev pub report_safely : TaskStatus → Beam Unit
    report_safely status = if has_callback then call (task_callback status) else pure tt

    -- What the lambda tasks that a job has run do to the manager: that of `abort` reports, and that of
    -- `start_scan` writes a file.
    abbrev pub run_lambdas : List Lambda → Beam Unit
    run_lambdas [] = pure tt
    run_lambdas (abort_in_progress ∷ ran) = report_safely in_progress_status >> run_lambdas ran
    run_lambdas (write_scan_config scan_id ∷ ran) = run_lambdas ran

    -- `_RemoteJob.__call__`: `ran` are the lambda tasks that the job has run and `outcome` is how it
    -- ended. The completion callback runs in `submit_job`, inside the `try`.
    unfoldable pub remote_job : List Lambda → Outcome E → Beam Unit → Beam Unit
    remote_job ran outcome completion =
        report_safely in_progress_status
        >> try_except
            (run_lambdas ran
              >> elim outcome [ success ↦ completion | failure e ↦ from_result (raised e) ])
            (λ e. report_safely failed_status)
