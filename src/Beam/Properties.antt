-- ===== src/Beam/Properties.antt =====
-- The request that configures a scan, and the attributes that the BEAM resets
-- (src/ska_pst_lmc/beam/beam_component_manager.py).
use ska_pst_lmc.Prelude.{
  String, ◌≡◌, refl, ap, ◌∙◌, Bool, true, false, ◌&&◌, Option, none, some, List, [], ◌∷◌, ◌++◌,
  lookup, insert, distinct, lookup-insert, string_key, ◌==◌, if◌then◌else◌, arith,
}
use text.Mathlib.TextEquality.{eq_iff}
use ska_pst_lmc.Effects.{returned, ◌>>◌, modify, then_returned, then_from}
use ska_pst_lmc.Beam.{
  BeamComponentManager, Configuration, Call, push_configured, property_callback, task_callback,
  completed_status,
}
use ska_pst_lmc.Beam.Commands.{
  Values, merged, as_pst_configure_scan_request, set_property, set_all, Beam, report, call,
  receive_properties, record_properties, disk_properties, reset_monitoring_properties,
  deconfigure_scan_completion,
}

-- The second dictionary's value, or else the first's.
abbrev pub override : {V : Type 0} → Option V → Option V → Option V
override none old = old
override (some x) old = some x

module _ {V E : Type 0} (v : Values V E) where
  lookup-merged :
      (k : String) (common scan : List (String × V))
      → distinct scan ≡ true
      → lookup k (merged v common scan) ≡ override (lookup k scan) (lookup k common)
  lookup-merged k common [] d = refl
  lookup-merged k common ((j, x) ∷ scan) d =
      ground
        (arith, lookup-merged k (insert j x common) scan, lookup-insert j k x common, eq_iff j k)

  -- The request that is made of a configuration with both sections: a key of the scan section has its
  -- value there; any other key has its value in the common section, where the frequency band is "low"
  -- for the Low facility.
  pub configure_request_lookup :
      (is_low : Bool) (common scan : List (String × V))
      → distinct scan ≡ true
      → (request : List (String × V)) × (after : Configuration V) × (as_pst_configure_scan_request v
            is_low
            (record { common = some common; pst_scan = some scan })
          ≡ returned (request, after))
        × ((k : String)
            → lookup k request
              ≡ override (lookup k scan) (
                  if is_low && ("frequency_band" == k)
                  then some (v.text "low")
                  else lookup k common))
  unfolding as_pst_configure_scan_request
  configure_request_lookup true common scan d =
      let low = insert "frequency_band" (v.text "low") common in
      (
        merged v low scan,
        record { common = some low; pst_scan = some scan },
        refl,
        λ k.
            lookup-merged k low scan d
            ∙ ap (override (lookup k scan))
                (lookup-insert "frequency_band" k (v.text "low") common),
      )
  configure_request_lookup false common scan d = (
    merged v common scan,
    record { common = some common; pst_scan = some scan },
    refl,
    λ k. lookup-merged k common scan d,
  )

abbrev told : {V : Type 0} → List (String × V) → List (Call V) → List (Call V)
told [] cs = cs
told ((name, x) ∷ properties) cs = told properties (property_callback name x ∷ cs)

module _ {V E : Type 0} (v : Values V E) (raises : Call V → Option E)
    (quiet : (c : Call V) → raises c ≡ none) where
  abbrev set_to : List (String × V) → BeamComponentManager V → BeamComponentManager V
  set_to properties m = record m {
    properties = merged v m.properties properties;
    calls = told properties m.calls;
  }

  set_all_lem :
      (properties : List (String × V)) (m : BeamComponentManager V)
      → set_all v raises true properties m ≡ (returned tt, set_to properties m)
  set_all_lem [] m = refl
  set_all_lem ((name, x) ∷ properties) m =
      then_returned (set_property v raises true name x) (λ y. set_all v raises true properties) m
        (rw (quiet (property_callback name x)))
      ∙ rw (quiet (property_callback name x)) (set_all_lem properties _)

  abbrev pub reset_properties : List (String × V)
  reset_properties =
      receive_properties v raises true
      ++ (record_properties v raises true ++ disk_properties v raises true)

  abbrev reset_to : BeamComponentManager V → BeamComponentManager V
  reset_to m =
      set_to (disk_properties v raises true)
        (record (set_to (record_properties v raises true)
          (set_to (receive_properties v raises true) m)) { config_id = v.text ""; scan_id = 0 })

  reset_lem :
      (m : BeamComponentManager V)
      → reset_monitoring_properties v raises true m ≡ (returned tt, reset_to m)
  unfolding reset_monitoring_properties
  reset_lem m =
      let first_part = set_all v raises true (receive_properties v raises true) in
      let second = set_all v raises true (record_properties v raises true) in
      let forget : Beam v raises true Unit =
        modify (λ m. record m { config_id = v.text ""; scan_id = 0 }) in
      let last = set_all v raises true (disk_properties v raises true) in
      let m₁ = set_to (receive_properties v raises true) m in
      let m₂ = set_to (record_properties v raises true) m₁ in
      let both =
        then_from first_part (λ y. second) m (set_all_lem (receive_properties v raises true) m)
        ∙ set_all_lem (record_properties v raises true) m₁ in
      let all_three = then_from (first_part >> second) (λ y. forget) m both in
      then_from (first_part >> second >> forget) (λ y. last) m all_three
      ∙ set_all_lem (disk_properties v raises true)
          (record m₂ { config_id = v.text ""; scan_id = 0 })

  abbrev deconfigured : BeamComponentManager V → BeamComponentManager V
  deconfigured m =
      let m' =
        reset_to (record m { curr_scan_config = none; calls = push_configured false ∷ m.calls }) in
      record m' { calls = task_callback completed_status ∷ m'.calls }

  deconfigure_lem :
      (m : BeamComponentManager V)
      → deconfigure_scan_completion v raises true m ≡ (returned tt, deconfigured m)
  unfolding deconfigure_scan_completion
  deconfigure_lem m =
      let begin : Beam v raises true Unit =
        modify (λ m. record m { curr_scan_config = none })
        >> call v raises true (push_configured false) in
      let reset = reset_monitoring_properties v raises true in
      let m₁ = record m { curr_scan_config = none; calls = push_configured false ∷ m.calls } in
      let begun : begin m ≡ (returned tt, m₁) = rw (quiet (push_configured false)) in
      let run = then_from begin (λ y. reset) m begun ∙ reset_lem m₁ in
      then_from (begin >> reset) (λ y. report v raises true completed_status) m run
      ∙ rw (quiet (task_callback completed_status))

  -- When nothing raises, deconfiguring a scan sets every monitored attribute to its default, forgets the
  -- configuration and its id, and sets the scan id to 0.
  pub deconfigure_resets :
      (m : BeamComponentManager V) (name : String) (x : V)
      → lookup name reset_properties ≡ some x
      → let (r, m') = deconfigure_scan_completion v raises true m in
        (r ≡ returned tt)
        × (lookup name m'.properties ≡ some x)
        × (m'.scan_id ≡ 0)
        × (m'.config_id ≡ v.text "")
        × (m'.curr_scan_config ≡ none)
  deconfigure_resets m name x among =
      let run = deconfigure_lem m in
      (
        ap (λ y. y.0) run,
        ap (λ y. lookup name y.1.properties) run
            ∙ lookup-merged v name m.properties reset_properties refl
            ∙ ap (λ o. override o (lookup name m.properties)) among,
        ap (λ y. y.1.scan_id) run,
        ap (λ y. y.1.config_id) run,
        ap (λ y. y.1.curr_scan_config) run,
      )
