-- ===== src/Process/Simulator/Agreement.antt =====
-- The simulated APIs against the client of a process that accepts every request
-- (src/ska_pst_lmc/component/process_api.py and the `_process_api.py` modules).
use ska_pst_lmc.Prelude.{
  ◌≡◌, refl, sym, ap, ◌∙◌, Bool, true, false, ◌⊎◌, Option, none, some, List, [], ◌∷◌, ◌++◌, arith,
}
use ska_pst_lmc.Effects.{returned}
use ska_pst_lmc.Process.{GrpcException}
use ska_pst_lmc.Process.Api.{Request, Call, grpc_call, Exception}
use ska_pst_lmc.Process.Reactions.{
  Operation, configure_scan, stop_scan, abort, reaction, request, run, operation_lem,
}
use ska_pst_lmc.Process.Simulator.{
  SimulatedCall, made, progress, PstProcessApiSimulator, Simulated, stop_monitoring,
  should_be_monitoring,
}
use ska_pst_lmc.Process.Simulator.Operations.{
  smrb_simulate, recv_simulate, dsp_simulate, stat_simulate,
}
use ska_pst_lmc.Manager.{Component, smrb, recv, dsp, stat}

module _ {M : Type 0} where
  abbrev pub simulate : Component → Option Exception → Operation M → Simulated M
  simulate smrb config op = smrb_simulate config op
  simulate recv config op = recv_simulate config op
  simulate dsp config op = dsp_simulate config op
  simulate stat config op = stat_simulate config op

  -- The calls but the progress.
  abbrev pub reported : List (SimulatedCall M) → List (Call M)
  reported [] = []
  reported (made c ∷ cs) = c ∷ reported cs
  reported (progress n ∷ cs) = reported cs

  -- The calls to the device and to the task's callback.
  abbrev pub without_process : List (Call M) → List (Call M)
  without_process [] = []
  without_process (grpc_call r ∷ cs) = without_process cs
  without_process (Call.stop_monitoring ∷ cs) = without_process cs
  without_process (c ∷ cs) = c ∷ without_process cs

  abbrev Agrees : Component → Operation M → PstProcessApiSimulator M → Type 0
  Agrees c op s =
      let (r, s') = simulate c none op s in
      (r ≡ returned tt)
      × (reported s'.calls ≡ without_process (reaction op none []) ++ reported s.calls)

  agree_lem : (c : Component) (op : Operation M) (s : PstProcessApiSimulator M) → Agrees c op s
  unfolding smrb_simulate recv_simulate dsp_simulate stat_simulate
  agree_lem smrb op s = ground arith
  agree_lem recv op s = ground arith
  agree_lem dsp op s = ground arith
  agree_lem stat op s = ground arith

  stopped :
      (c : Component) (op : Operation M) (s : PstProcessApiSimulator M)
      → (op ≡ stop_scan) ⊎ (op ≡ abort)
      → should_be_monitoring (simulate c none op s).1 ≡ false
  unfolding smrb_simulate recv_simulate dsp_simulate stat_simulate should_be_monitoring
      stop_monitoring
  stopped smrb op s e = ground arith
  stopped recv op s e = ground arith
  stopped dsp op s e = ground arith
  stopped stat op s e = ground arith

  abbrev pub configures_scan : Operation M → Bool
  configures_scan (configure_scan m) = true
  configures_scan _ = false

  -- Only `configure_scan` asks the simulator for something that can raise.
  settled :
      (c : Component) (config : Option Exception) (op : Operation M) (s : PstProcessApiSimulator M)
      → (config ≡ none) ⊎ (configures_scan op ≡ false)
      → simulate c config op s ≡ simulate c none op s
  unfolding smrb_simulate recv_simulate dsp_simulate stat_simulate
  settled smrb none op s h = refl
  settled recv none op s h = refl
  settled dsp none op s h = refl
  settled stat none op s h = refl
  settled smrb (some e) op s h = ground arith
  settled recv (some e) op s h = ground arith
  settled dsp (some e) op s h = ground arith
  settled stat (some e) op s h = ground arith

  -- An operation of a simulated API returns, where `configure_scan` needs that the simulator's own
  -- `configure_scan` does not raise. It makes the same pushes of the component's state and the same
  -- status reports, in the same order, as the gRPC client makes against a process that accepts the
  -- request. After the end or the abort of a scan the simulated API is not monitoring.
  pub simulator_agrees :
      (c : Component) (config : Option Exception) (op : Operation M)
      (grpc : Request M → Option GrpcException) (s : PstProcessApiSimulator M)
      → (config ≡ none) ⊎ (configures_scan op ≡ false)
      → grpc (request op) ≡ none
      → let (r, s') = simulate c config op s in
        let (r', cs) = run grpc op [] in
        (r ≡ returned tt)
        × (r' ≡ returned tt)
        × (reported s'.calls ≡ without_process cs ++ reported s.calls)
        × ((op ≡ stop_scan) ⊎ (op ≡ abort) → should_be_monitoring s' ≡ false)
  simulator_agrees c config op grpc s h accepts =
      let same = settled c config op s h in
      let (e, agree) = agree_lem c op s in
      let client = operation_lem grpc op [] in
      (
        ap (λ p. p.0) same ∙ e,
        ap (λ p. p.0) client,
        ap (λ p. reported p.1.calls) same
            ∙ agree
            ∙ ap (λ a. without_process (reaction op a []) ++ reported s.calls) (sym accepts)
            ∙ ap (λ p. without_process p.1 ++ reported s.calls) (sym client),
        λ ends. ap (λ p. should_be_monitoring p.1) same ∙ stopped c op s ends,
      )
