-- ===== src/Device/Commands.antt =====
-- How the commands of a process's device end (src/ska_pst_lmc/component/pst_device.py): the device with
-- its client and its observation state machine. The actions on the machine follow functions of the
-- state alone.
use mathlib.Core.Path.{subst}
use ska_pst_lmc.Prelude.{
  ◌≡◌, refl, ap, sym, ◌∙◌, Bool, true, false, Option, none, some, List, [], ◌∷◌, arith,
}
use ska_pst_lmc.Effects.{Result, returned, raised, ◌>>◌, pure}
use ska_pst_lmc.ObsState.{
  State, Trigger, component_obsfault, component_resourced, component_unresourced,
  component_configured, component_unconfigured, component_scanning, component_not_scanning,
  Dispatch, PstObsStateMachine, state_changed, moved,
}
use ska_pst_lmc.ObsState.Diagram.{next, fire-next}
use ska_pst_lmc.Process.Api.{
  Call, grpc_call, stop_monitoring, push_resourced, push_configured, push_scanning, push_reset,
  push_obsfault, task_callback, in_progress_status, completed_status, failed_status, Exception,
}
use ska_pst_lmc.Device.{
  Changes, state_model_error, Library, act_on_machine, either_trigger, IsDocumented, Command,
  configure_beam, deconfigure_beam, deconfigure_scan, validate_configure_scan, hook,
  obsfault_changed, resourced_changed, base_component_state_changed, component_state_changed,
  invoked, completed, on_call, on_calls,
}

-- What an action does to the state, and whether it returns.
abbrev pub Step : Type 0
Step = State → Result Exception Unit × State

abbrev pub and_then : Step → Step → Step
and_then f g s = let (r, s') = f s in elim r [ returned u ↦ g s' | raised e ↦ (raised e, s') ]

abbrev stay : Step
stay s = (returned tt, s)

abbrev trigger : Trigger → Step
trigger t s = elim (next s t) [
  | none ↦ (raised state_model_error, s)
  | some dest ↦ (returned tt, dest)
]

abbrev either : Trigger → Trigger → Option Bool → Step
either on off none = stay
either on off (some true) = trigger on
either on off (some false) = trigger off

pub record Follows (a : Changes) (f : Step) : Type 0 where
  pub at_state : (m : PstObsStateMachine) → ((a m).0, (a m).1.state) ≡ f m.state

Follows-pure : Follows (pure tt) stay
Follows-pure = record { at_state = λ m. refl }

pub Follows-then :
    {a b : Changes} {f g : Step} → Follows a f → Follows b g → Follows (a >> b) (and_then f g)
Follows-then {a} {b} {f} {g} fa fb = record {
  at_state = λ m. let k = fa.at_state m in let k' = fb.at_state (a m).1 in ground arith;
}

moved-step :
    (m : PstObsStateMachine) (o : Option State)
    → let (r, m') = elim (moved m o) as (λ x. Result Exception Unit × PstObsStateMachine) [
      | none ↦ (raised state_model_error, m)
      | some m' ↦ (returned tt, m')
    ] in
      (r, m'.state) ≡ elim o as (λ x. Result Exception Unit × State) [
        | none ↦ (raised state_model_error, m.state)
        | some dest ↦ (returned tt, dest)
      ]
unfolding state_changed
moved-step m none = refl
moved-step m (some dest) = ground arith

module _ (d : Dispatch) where
  Follows-act : (t : Trigger) → Follows (act_on_machine d t) (trigger t)
  Follows-act t = record {
    at_state = λ m.
        ap
          (λ o. (
            (elim o as (λ x. Result Exception Unit × PstObsStateMachine) [
              | none ↦ (raised state_model_error, m)
              | some m' ↦ (returned tt, m')
            ]).0,
            (elim o as (λ x. Result Exception Unit × PstObsStateMachine) [
              | none ↦ (raised state_model_error, m)
              | some m' ↦ (returned tt, m')
            ]).1.state,
          ))
          (fire-next d m t)
        ∙ moved-step m (next m.state t);
  }

  Follows-either :
      (on off : Trigger) (b : Option Bool) → Follows (either_trigger d on off b) (either on off b)
  Follows-either on off none = Follows-pure
  Follows-either on off (some true) = Follows-act on
  Follows-either on off (some false) = Follows-act off

-- The functions of the state that the device's actions follow.
abbrev obsfault_step : Option Bool → Step
obsfault_step none = stay
obsfault_step (some false) = stay
obsfault_step (some true) = trigger component_obsfault

abbrev changed : Option Bool → Option Bool → Option Bool → Option Bool → Step
changed resourced obsfault configured scanning =
    and_then
      (and_then
        (and_then (either component_configured component_unconfigured configured)
          (either component_scanning component_not_scanning scanning))
        (obsfault_step obsfault))
      (either component_resourced component_unresourced resourced)

abbrev pub invocation : Command → Step
invocation c = elim (hook c) [ none ↦ stay | some (before, after) ↦ trigger before ]

abbrev completion : Command → Step
completion c = elim (hook c) [ none ↦ stay | some (before, after) ↦ trigger after ]

abbrev call_step : {M : Type 0} → Command → Call M → Step
call_step c (push_resourced b) = changed (some b) none none none
call_step c (push_configured b) = changed none none (some b) none
call_step c (push_scanning b) = changed none none none (some b)
call_step c push_reset = changed (some false) none (some false) none
call_step c push_obsfault = changed none (some true) none none
call_step c (task_callback in_progress_status result) = stay
call_step c (task_callback completed_status result) = completion c
call_step c (task_callback failed_status result) = completion c
call_step c (grpc_call r) = stay
call_step c stop_monitoring = stay

abbrev pub call_steps : {M : Type 0} → Command → List (Call M) → Step
call_steps c [] = stay
call_steps c (call ∷ calls) = and_then (call_steps c calls) (call_step c call)

module _ (d : Dispatch) (lib : Library) (documented : IsDocumented d lib) where
  Follows-perform : (t : Trigger) → Follows (lib.perform_action t) (trigger t)
  Follows-perform t = record {
    at_state =
        λ m. ap (λ p. (p.0, p.1.state)) (documented.performs t m) ∙ (Follows-act d t).at_state m;
  }

  Follows-super :
      (configured scanning : Option Bool)
      → Follows (lib.super_changed configured scanning) (
          and_then
            (either component_configured component_unconfigured configured)
            (either component_scanning component_not_scanning scanning))
  Follows-super configured scanning = record {
    at_state = λ m.
        ap (λ p. (p.0, p.1.state)) (documented.changes configured scanning m)
        ∙ (Follows-then (Follows-either d component_configured component_unconfigured configured)
              (Follows-either d component_scanning component_not_scanning scanning)).at_state
            m;
  }

  Follows-obsfault : (b : Option Bool) → Follows (obsfault_changed lib b) (obsfault_step b)
  Follows-obsfault none = Follows-pure
  Follows-obsfault (some false) = Follows-pure
  Follows-obsfault (some true) = Follows-perform component_obsfault

  Follows-resourced :
      (b : Option Bool)
      → Follows (resourced_changed lib b) (either component_resourced component_unresourced b)
  Follows-resourced none = Follows-pure
  Follows-resourced (some true) = Follows-perform component_resourced
  Follows-resourced (some false) = Follows-perform component_unresourced

  Follows-changed :
      (resourced obsfault configured scanning : Option Bool)
      → Follows
          (component_state_changed lib resourced obsfault configured scanning)
          (changed resourced obsfault configured scanning)
  unfolding component_state_changed base_component_state_changed
  Follows-changed resourced obsfault configured scanning =
      Follows-then (Follows-then (Follows-super configured scanning) (Follows-obsfault obsfault))
        (Follows-resourced resourced)

  Follows-completed : (c : Command) → Follows (completed lib c) (completion c)
  unfolding completed
  Follows-completed configure_beam = Follows-perform _
  Follows-completed deconfigure_beam = Follows-perform _
  Follows-completed deconfigure_scan = Follows-pure
  Follows-completed validate_configure_scan = Follows-pure

  pub Follows-invoked : (c : Command) → Follows (invoked lib c) (invocation c)
  unfolding invoked
  Follows-invoked configure_beam = Follows-perform _
  Follows-invoked deconfigure_beam = Follows-perform _
  Follows-invoked deconfigure_scan = Follows-pure
  Follows-invoked validate_configure_scan = Follows-pure

  Follows-final :
      (c : Command) (b : Bool)
      → b ≡ true
      → Follows
          (elim b as (λ x. Changes) [ true ↦ completed lib c | false ↦ pure tt ])
          (completion c)
  Follows-final c true e = Follows-completed c
  Follows-final c false e = absurd (ground arith)

  Follows-on_call :
      {M : Type 0} (c : Command) (call : Call M) → Follows (on_call lib c call) (call_step c call)
  unfolding on_call
  Follows-on_call c (push_resourced b) = Follows-changed (some b) none none none
  Follows-on_call c (push_configured b) = Follows-changed none none (some b) none
  Follows-on_call c (push_scanning b) = Follows-changed none none none (some b)
  Follows-on_call c push_reset = Follows-changed (some false) none (some false) none
  Follows-on_call c push_obsfault = Follows-changed none (some true) none none
  Follows-on_call c (task_callback in_progress_status result) =
      subst
        (λ b. Follows (elim b as (λ x. Changes) [ true ↦ completed lib c | false ↦ pure tt ]) stay)
        (sym documented.in_progress_goes_on) Follows-pure
  Follows-on_call c (task_callback completed_status result) =
      Follows-final c (lib.is_final completed_status) documented.completed_ends
  Follows-on_call c (task_callback failed_status result) =
      Follows-final c (lib.is_final failed_status) documented.failed_ends
  Follows-on_call c (grpc_call r) = Follows-pure
  Follows-on_call c stop_monitoring = Follows-pure

  pub Follows-on_calls :
      {M : Type 0} (c : Command) (calls : List (Call M))
      → Follows (on_calls lib c calls) (call_steps c calls)
  Follows-on_calls c [] = Follows-pure
  Follows-on_calls c (call ∷ calls) =
      Follows-then (Follows-on_calls c calls) (Follows-on_call c call)
