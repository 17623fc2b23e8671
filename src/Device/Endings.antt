-- ===== src/Device/Endings.antt =====
-- How the commands of a process's device end (src/ska_pst_lmc/component/pst_device.py): the device with
-- the client of its process and its observation state machine.
use ska_pst_lmc.Prelude.{◌≡◌, ap, ◌∙◌, true, Option, none, some, List, [], arith}
use ska_pst_lmc.Effects.{Result, returned, raised, ◌>>◌}
use ska_pst_lmc.ObsState.{State, empty, idle, ready, fault, Dispatch, PstObsStateMachine}
use ska_pst_lmc.Process.{GrpcException}
use ska_pst_lmc.Process.Api.{Request, Call, Exception}
use ska_pst_lmc.Process.Reactions.{
  Operation, already, refused, faulty, meaning, request, run, reaction, operation_lem,
}
use ska_pst_lmc.Device.{
  state_model_error, Library, IsDocumented, Command, configure_beam, deconfigure_beam,
  deconfigure_scan, validate_configure_scan, is_allowed, is_validate_configure_scan_allowed,
  is_configure_beam_allowed, is_deconfigure_beam_allowed, is_deconfigure_scan_allowed, invoked,
  on_calls, run_command,
}
use ska_pst_lmc.Device.Commands.{
  and_then, invocation, call_steps, Follows-then, Follows-invoked, Follows-on_calls,
}

-- The operation of the client that the command's task calls; a validation calls none of them.
abbrev pub operation : {M : Type 0} → Command → M → Option (Operation M)
operation configure_beam m = some (Operation.configure_beam m)
operation deconfigure_beam m = some Operation.deconfigure_beam
operation deconfigure_scan m = some Operation.deconfigure_scan
operation validate_configure_scan m = none

-- The state after a command that the process accepts, and after one that it refuses.
abbrev pub target : Command → State
target configure_beam = idle
target deconfigure_beam = empty
target deconfigure_scan = idle
target validate_configure_scan = empty

abbrev pub source : Command → State
source configure_beam = empty
source deconfigure_beam = idle
source deconfigure_scan = ready
source validate_configure_scan = empty

-- A command with a hook is refused its completion in FAULT.
abbrev pub after_fault : Command → Result Exception Unit
after_fault configure_beam = raised state_model_error
after_fault deconfigure_beam = raised state_model_error
after_fault deconfigure_scan = returned tt
after_fault validate_configure_scan = returned tt

abbrev pub ending :
    {M : Type 0} → Command → Operation M → Option GrpcException → Result Exception Unit × State
ending c op none = (returned tt, target c)
ending c op (some x) = elim (meaning op x.kind) [
  | already ↦ (returned tt, target c)
  | refused ↦ (returned tt, source c)
  | faulty ↦ (after_fault c, fault)
]

reaction_step :
    {M : Type 0} (c : Command) (m : M) (op : Operation M) (answer : Option GrpcException)
    → operation c m ≡ some op
    → and_then (invocation c) (call_steps c (reaction op answer [])) (source c) ≡ ending c op answer
reaction_step configure_beam m op answer e = ground arith
reaction_step deconfigure_beam m op answer e = ground arith
reaction_step deconfigure_scan m op answer e = ground arith
reaction_step validate_configure_scan m op answer e = absurd (ground arith)

allowed_source : (c : Command) (s : State) → is_allowed c s ≡ true → s ≡ source c
unfolding is_allowed is_validate_configure_scan_allowed is_configure_beam_allowed
    is_deconfigure_beam_allowed is_deconfigure_scan_allowed
allowed_source configure_beam s e = ground arith
allowed_source deconfigure_beam s e = ground arith
allowed_source deconfigure_scan s e = ground arith
allowed_source validate_configure_scan s e = ground arith

allowed_run :
    (lib : Library) {M : Type 0} (c : Command) (calls : List (Call M)) (m : PstObsStateMachine)
    → is_allowed c m.state ≡ true
    → run_command lib c calls m ≡ (invoked lib c >> on_calls lib c calls) m
unfolding run_command
allowed_run lib c calls m e = rw (e, run_command)

module _ (d : Dispatch) (lib : Library) (documented : IsDocumented d lib) where
  command_ending :
      {M : Type 0} (c : Command) (message : M) (op : Operation M)
      (grpc : Request M → Option GrpcException) (m : PstObsStateMachine)
      → operation c message ≡ some op
      → is_allowed c m.state ≡ true
      → let (r, m') = run_command lib c (run grpc op []).1 m in
        (r, m'.state) ≡ ending c op (grpc (request op))
  command_ending {M} c message op grpc m e allowed =
      ap (λ p. (p.0, p.1.state)) (allowed_run lib c (run grpc op []).1 m allowed)
      ∙ (Follows-then (Follows-invoked d lib documented c)
            (Follows-on_calls d lib documented c (run grpc op []).1)).at_state
          m
      ∙ ap (λ cs. and_then (invocation c) (call_steps c cs) m.state)
          (ap (λ p. p.1) (operation_lem grpc op []))
      ∙ ap (λ s. and_then (invocation c) (call_steps c (reaction op (grpc (request op)) [])) s)
          (allowed_source c m.state allowed)
      ∙ reaction_step c message op (grpc (request op)) e

  -- A command of a process's device that the observation state allows, with the client of the process
  -- and the observation state machine: when the process accepts, or is already in the state asked for,
  -- the command returns with the device in the command's target state; when it refuses the request, in
  -- the state before; with any other exception the device is in FAULT, and a command with a hook raises,
  -- since the machine refuses the hook's completion there.
  pub command_ends :
      {M : Type 0} (c : Command) (message : M) (op : Operation M)
      (grpc : Request M → Option GrpcException) (m : PstObsStateMachine)
      → operation c message ≡ some op
      → is_allowed c m.state ≡ true
      → let (r, m') = run_command lib c (run grpc op []).1 m in
        (r ≡ (ending c op (grpc (request op))).0) × (m'.state ≡ (ending c op (grpc (request op))).1)
  command_ends c message op grpc m e allowed =
      let k = command_ending c message op grpc m e allowed in (ap (λ p. p.0) k, ap (λ p. p.1) k)
