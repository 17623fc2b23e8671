-- ===== src/Beam/ReportExamples.antt =====
-- Commands of the BEAM on concrete states.
use ska_pst_lmc.Prelude.{
  ℕ, String, ◌≡◌, refl, ◌⊎◌, true, false, Option, none, some, List, [], ◌∷◌, ◌++◌, All, string_key,
}
use ska_pst_lmc.Job.{success}
use ska_pst_lmc.Job.Executor.{In, commands}
use ska_pst_lmc.Job.ExecutorSound.{Succeeds}
use ska_pst_lmc.Beam.{
  BeamComponentManager, Configuration, Call, push_scanning, task_callback, TaskStatus,
  completed_status, failed_status, in_progress_status,
}
use ska_pst_lmc.Beam.Jobs.{stop_scan_job}
use ska_pst_lmc.Beam.Commands.{Values, remote_job, stop_scan_completion}
use ska_pst_lmc.Beam.Reports.{statuses, is_report}
use ska_pst_lmc.Beam.Success.{state_changes_need_success}
use ska_pst_lmc.Beam.Completions.{Command, completion, stop_scan, lambdas_of}
use ska_pst_lmc.Beam.Statuses.{started, one_final_status}
use ska_pst_lmc.Beam.Runs.{Accepts}
use ska_pst_lmc.Beam.Examples.{stop_scan_ends}

pub data Json : Type 0 where
  number : ℕ → Json
  float : ℕ → Json
  word : String → Json
  object : Json

abbrev values : Values Json String
values = record {
  int = number;
  float_zero = float 0;
  maxsize = number 9223372036854775807;
  default_recording_time = float 1000000;
  empty_dict = object;
  text = word;
  type_error = "TypeError";
  key_error = λ k. k;
}

abbrev silent : Call Json → Option String
silent c = none

abbrev deaf : Call Json → Option String
deaf (push_scanning b) = some "no device interface"
deaf _ = none

abbrev configuration : Configuration Json
configuration = record { common = some (("config_id", word "c1") ∷ []); pst_scan = some [] }

abbrev scanning_beam : BeamComponentManager Json
scanning_beam = record {
  properties = ("data_received", number 12) ∷ [];
  scan_id = 42;
  config_id = word "c1";
  curr_scan_config = some configuration;
  calls = [];
}

abbrev stopped : List (Call Json)
stopped =
    task_callback completed_status ∷ push_scanning false ∷ task_callback in_progress_status ∷ []

stopped_calls :
    (remote_job values silent true [] success
      (stop_scan_completion values silent true)
      scanning_beam).1.calls
    ≡ stopped
unfolding remote_job stop_scan_completion
stopped_calls = refl

state_changes_need_success_example :
    let q =
      (remote_job values silent true [] success
        (stop_scan_completion values silent true)
        scanning_beam).1 in
    All (Succeeds Accepts) (commands stop_scan_job)
    ⊎ ((record q { calls = [] } ≡ scanning_beam)
        × ((c : Call Json) → is_report c ≡ false → In c q.calls → In c []))
state_changes_need_success_example =
    state_changes_need_success values silent true false stop_scan_job _ [] success
      (stop_scan_completion values silent true) scanning_beam stop_scan_ends

abbrev a_stop : Command Json String
a_stop = stop_scan

one_final_status_example :
    (status : TaskStatus) × ((status ≡ completed_status) ⊎ (status ≡ failed_status))
    × (statuses
          (remote_job values deaf true
            (lambdas_of a_stop)
            success
            (completion values deaf true a_stop)
            scanning_beam).1.calls
        ≡ status ∷ started a_stop ++ [])
one_final_status_example =
    one_final_status values deaf (λ status. refl) a_stop success scanning_beam (λ fault_msg e. cc)
