-- ===== src/Process/Simulator/Examples.antt =====
-- The end of a simulated scan.
use ska_pst_lmc.Prelude.{◌≡◌, refl, ◌⊎◌, String, true, false, Option, none, some, inr, [], ◌++◌}
use ska_pst_lmc.Effects.{returned}
use ska_pst_lmc.Process.{GrpcException}
use ska_pst_lmc.Process.Api.{Request, Exception, other_exception}
use ska_pst_lmc.Process.Reactions.{Operation, stop_scan, abort, run}
use ska_pst_lmc.Process.Simulator.{PstProcessApiSimulator, should_be_monitoring}
use ska_pst_lmc.Process.Simulator.Agreement.{simulate, reported, without_process, simulator_agrees}
use ska_pst_lmc.Manager.{recv}

abbrev scanning_api : PstProcessApiSimulator String
scanning_api = record {
  scanning = true;
  monitor_abort_event = false;
  fail_validate_configure_beam = false;
  fail_validate_configure_scan = false;
  simulator_scan = true;
  calls = [];
}

abbrev accepts : Request String → Option GrpcException
accepts r = none

abbrev broken : Exception
broken = other_exception "broken"

abbrev a_stop : Operation String
a_stop = stop_scan

simulator_agrees_example :
    let (r, s') = simulate recv (some broken) a_stop scanning_api in
    let (r', cs) = run accepts a_stop [] in
    (r ≡ returned tt)
    × (r' ≡ returned tt)
    × (reported s'.calls ≡ without_process cs ++ [])
    × ((a_stop ≡ stop_scan) ⊎ (a_stop ≡ abort) → should_be_monitoring s' ≡ false)
simulator_agrees_example =
    simulator_agrees recv (some broken) a_stop accepts scanning_api (inr refl) refl
