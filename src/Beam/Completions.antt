-- ===== src/Beam/Completions.antt =====
-- That each completion callback of the BEAM reports once
-- (src/ska_pst_lmc/beam/beam_component_manager.py, `_RemoteJob` and the completion callbacks).
use ska_pst_lmc.Prelude.{
  ℕ, String, ◌≡◌, refl, ap, ◌∙◌, Bool, true, false, Option, none, some, List, [], ◌∷◌, string_key,
}
use ska_pst_lmc.Effects.{Result, ◌>>=◌, ◌>>◌, then_returned, then_raised, modify, from_result}
use ska_pst_lmc.Beam.{
  Lambda, abort_in_progress, BeamComponentManager, Configuration, Call, task_callback, handle_fault,
  TaskStatus, completed_status, push_power, push_configured, push_scanning, push_obsfault,
  update_health_ok, subscribe_change_events, abort_commands, property_callback,
}
use ska_pst_lmc.Beam.Commands.{
  Values, config_id_of, Beam, call, report, set_property, set_all, on_completion, off_completion,
  standby_completion, reset_completion, configure_scan_completion, deconfigure_scan_completion,
  start_scan_completion, stop_scan_completion, abort_completion, obsreset_completion,
  go_to_fault_completion, reset_monitoring_properties, receive_properties, record_properties,
  disk_properties,
}
use ska_pst_lmc.Beam.Reports.{
  statuses, call-calls, is_report, Quiet, reports, silent, Finishes, seen, Quiet-call, Quiet-modify,
  Quiet-then, Finishes-then, Finishes-report, Finishes-try,
}

-- The commands of the BEAM, with what their completion callbacks use.
pub data Command (V E : Type 0) : Type 0 where
  on off standby reset deconfigure_scan stop_scan abort obsreset : Command V E
  configure_scan : Configuration V → Result E V → Command V E
  start_scan : ℕ → Command V E
  go_to_fault : String → Command V E

module _ {V E : Type 0} (v : Values V E) (raises : Call V → Option E) (has_callback : Bool) where
  abbrev pub completion : Command V E → Beam v raises has_callback Unit
  completion on = on_completion v raises has_callback
  completion off = off_completion v raises has_callback
  completion standby = standby_completion v raises has_callback
  completion reset = reset_completion v raises has_callback
  completion deconfigure_scan = deconfigure_scan_completion v raises has_callback
  completion stop_scan = stop_scan_completion v raises has_callback
  completion abort = abort_completion v raises has_callback
  completion obsreset = obsreset_completion v raises has_callback
  completion (configure_scan configuration rate) =
      configure_scan_completion v raises has_callback configuration rate
  completion (start_scan scan_id) = start_scan_completion v raises has_callback scan_id
  completion (go_to_fault fault_msg) = go_to_fault_completion v raises has_callback fault_msg

-- The lambda tasks of a command's job that report. That of `start_scan` writes a file and does nothing
-- to the manager.
abbrev pub lambdas_of : {V E : Type 0} → Command V E → List Lambda
lambdas_of abort = abort_in_progress ∷ []
lambdas_of _ = []

module _ {V E : Type 0} (v : Values V E) (raises : Call V → Option E) where
  Quiet-set_property : (name : String) (x : V) → Quiet v raises (set_property v raises true name x)
  Quiet-set_property name x m = ap statuses (call-calls v raises true (property_callback name x) _)

  Quiet-set_all :
      (properties : List (String × V)) → Quiet v raises (set_all v raises true properties)
  Quiet-set_all [] = λ m. refl
  Quiet-set_all ((name, x) ∷ properties) =
      Quiet-then v raises (set_property v raises true name x)
        (λ y. set_all v raises true properties) (Quiet-set_property name x)
        (λ y. Quiet-set_all properties)

  Quiet-reset : Quiet v raises (reset_monitoring_properties v raises true)
  unfolding reset_monitoring_properties
  Quiet-reset =
      let first_part = set_all v raises true (receive_properties v raises true) in
      let second = set_all v raises true (record_properties v raises true) in
      let forget : Beam v raises true Unit =
        modify (λ m. record m { config_id = v.text ""; scan_id = 0 }) in
      let last = set_all v raises true (disk_properties v raises true) in
      Quiet-then v raises (first_part >> second >> forget) (λ y. last)
        (Quiet-then v raises (first_part >> second) (λ y. forget)
          (Quiet-then v raises first_part (λ y. second)
            (Quiet-set_all (receive_properties v raises true))
            (λ y. Quiet-set_all (record_properties v raises true)))
          (λ y m. refl))
        (λ y. Quiet-set_all (disk_properties v raises true))

  module _ (heard : (status : TaskStatus) → raises (task_callback status) ≡ none) where
    Finishes-call :
        (c : Call V)
        → is_report c ≡ false
        → Finishes v raises (call v raises true c >> report v raises true completed_status)
    Finishes-call c other =
        Finishes-then v raises (call v raises true c) (λ y. report v raises true completed_status)
          (Quiet-call v raises c other) (λ y. Finishes-report v raises heard)

    Finishes-calls :
        (c d : Call V)
        → is_report c ≡ false
        → is_report d ≡ false
        → Finishes v raises
            (call v raises true c >> call v raises true d >> report v raises true completed_status)
    Finishes-calls c d other other' =
        Finishes-then v raises (call v raises true c >> call v raises true d)
          (λ y. report v raises true completed_status)
          (Quiet-then v raises (call v raises true c) (λ y. call v raises true d)
            (Quiet-call v raises c other) (λ y. Quiet-call v raises d other'))
          (λ y. Finishes-report v raises heard)

    Finishes-call_modify :
        (c : Call V) (f : BeamComponentManager V → BeamComponentManager V)
        → is_report c ≡ false
        → ((m : BeamComponentManager V) → (f m).calls ≡ m.calls)
        → Finishes v raises
            (call v raises true c >> modify f >> report v raises true completed_status)
    Finishes-call_modify c f other keeps =
        Finishes-then v raises (call v raises true c >> modify f)
          (λ y. report v raises true completed_status)
          (Quiet-then v raises (call v raises true c) (λ y. modify f) (Quiet-call v raises c other)
            (λ y. Quiet-modify v raises f keeps))
          (λ y. Finishes-report v raises heard)

    Finishes-deconfigure : Finishes v raises (deconfigure_scan_completion v raises true)
    unfolding deconfigure_scan_completion
    Finishes-deconfigure =
        let before : Beam v raises true Unit =
          modify (λ m. record m { curr_scan_config = none })
          >> call v raises true (push_configured false) in
        Finishes-then v raises (before >> reset_monitoring_properties v raises true)
          (λ y. report v raises true completed_status)
          (Quiet-then v raises before (λ y. reset_monitoring_properties v raises true)
            (λ m. ap statuses (call-calls v raises true (push_configured false) _))
            (λ y. Quiet-reset))
          (λ y. Finishes-report v raises heard)

    Finishes-configure :
        (configuration : Configuration V) (rate : Result E V)
        → Finishes v raises (configure_scan_completion v raises true configuration rate)
    unfolding configure_scan_completion
    Finishes-configure configuration rate =
        let push : Beam v raises true Unit = call v raises true (push_configured true) in
        let read : Beam v raises true V = from_result (config_id_of v configuration) in
        let keep : V → Beam v raises true V = λ config_id.
          modify (λ m. record m { config_id = config_id; curr_scan_config = some configuration })
          >> from_result rate in
        let finish : V → Beam v raises true Unit = λ r.
          set_property v raises true "expected_data_record_rate" r
          >> report v raises true completed_status in
        Finishes-then v raises (push >> read) (λ config_id. keep config_id >>= finish)
          (Quiet-then v raises push (λ y. read) (Quiet-call v raises (push_configured true) refl)
            (λ y m. refl))
          (λ config_id.
            Finishes-then v raises (keep config_id) finish (λ m. refl)
              (λ r.
                Finishes-then v raises (set_property v raises true "expected_data_record_rate" r)
                  (λ y. report v raises true completed_status) (Quiet-set_property _ r)
                  (λ y. Finishes-report v raises heard)))

    Finishes-fault :
        (fault_msg : String)
        → raises (handle_fault fault_msg) ≡ none
        → Finishes v raises (go_to_fault_completion v raises true fault_msg)
    unfolding go_to_fault_completion
    Finishes-fault fault_msg quiet m =
        let first_part : Beam v raises true Unit =
          call v raises true (push_obsfault true) >> report v raises true completed_status in
        let last : Unit → Beam v raises true Unit =
          λ y. call v raises true (handle_fault fault_msg) in
        elim (Finishes-call (push_obsfault true) refl m) [
          | reports status final s r ↦
              let run = then_returned first_part last m r in
              reports status final
                (seen v raises run
                  ∙ Quiet-call v raises (handle_fault fault_msg) refl (first_part m).1
                  ∙ s)
                (ap (λ y. y.0) run ∙ rw quiet)
          | silent e s r ↦
              let run = then_raised first_part last m r in
              silent e (seen v raises run ∙ s) (ap (λ y. y.0) run)
        ]

    pub Finishes-completion :
        (command : Command V E)
        → ((fault_msg : String)
            → command ≡ go_to_fault fault_msg
            → raises (handle_fault fault_msg) ≡ none)
        → Finishes v raises (completion v raises true command)
    unfolding on_completion off_completion standby_completion reset_completion
        configure_scan_completion deconfigure_scan_completion start_scan_completion
        stop_scan_completion abort_completion obsreset_completion go_to_fault_completion
    Finishes-completion on quiet =
        Finishes-try v raises heard _
          (Finishes-calls subscribe_change_events (push_power _) refl refl)
    Finishes-completion off quiet =
        Finishes-try v raises heard _ (Finishes-call (push_power _) refl)
    Finishes-completion standby quiet = Finishes-call (push_power _) refl
    Finishes-completion reset quiet = Finishes-call (push_power _) refl
    Finishes-completion deconfigure_scan quiet = Finishes-deconfigure
    Finishes-completion stop_scan quiet =
        Finishes-call_modify (push_scanning false) (λ m. record m { scan_id = 0 }) refl (λ m. refl)
    Finishes-completion abort quiet = Finishes-calls (push_scanning false) abort_commands refl refl
    Finishes-completion obsreset quiet =
        Finishes-calls (push_configured false) update_health_ok refl refl
    Finishes-completion (configure_scan configuration rate) quiet =
        Finishes-configure configuration rate
    Finishes-completion (start_scan scan_id) quiet =
        Finishes-call_modify (push_scanning true) (λ m. record m { scan_id = scan_id }) refl
          (λ m. refl)
    Finishes-completion (go_to_fault fault_msg) quiet =
        Finishes-fault fault_msg (quiet fault_msg refl)
