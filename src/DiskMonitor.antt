-- ===== src/DiskMonitor.antt =====
-- The task that polls the disk of the DSP (src/ska_pst_lmc/dsp/disk_monitor_task.py): the states of
-- `DiskMonitorTask` and its background thread, with one step for each section under the lock.
pub mod Runs
mod Examples
use ska_pst_lmc.Prelude.{ℕ, suc, ◌≡◌, ◌⊎◌, Bool, true, false}

pub data MonitoringState : Type 0 where
  waiting starting monitoring stopping stopped shutdown : MonitoringState

-- `_monitor_background`: not submitted or returned, submitted, before the test of the loop, in the
-- wait, at the action, or in `finally`.
pub data Background : Type 0 where
  absent submitted testing polling acting finishing : Background

-- `stop_monitoring_evt` is whether the event is set; `stats_actions` counts the calls of the action.
pub record DiskMonitorTask : Type 0 where
  pub state : MonitoringState
  pub stop_monitoring_evt : Bool
  pub background : Background
  pub stats_actions : ℕ

abbrev pub new_task : DiskMonitorTask
new_task = record {
  state = waiting;
  stop_monitoring_evt = false;
  background = absent;
  stats_actions = 0;
}

pub data Step (x : DiskMonitorTask) : DiskMonitorTask → Type 0 where
  -- `start_monitoring`, in a state in which it does not wait, warn or raise; it submits the thread.
  starts :
      (x.state ≡ waiting) ⊎ (x.state ≡ stopped)
      → Step x (record x { state = starting; background = submitted })
  -- `stop_monitoring`, in a state in which it does more than to log or to wait.
  stops :
      (x.state ≡ starting) ⊎ (x.state ≡ monitoring)
      → Step x (record x { state = stopping; stop_monitoring_evt = true })
  begins : x.background ≡ submitted → Step x (record x { state = monitoring; background = testing })
  goes_on :
      x.background ≡ testing
      → x.stop_monitoring_evt ≡ false
      → x.state ≡ monitoring
      → Step x (record x { background = polling })
  leaves :
      (x.background ≡ testing) ⊎ (x.background ≡ polling)
      → (x.stop_monitoring_evt ≡ true) ⊎ (x.state ≡ monitoring → ⊥)
      → Step x (record x { background = finishing })
  -- The wait ends with the timeout only if the condition to stop does not hold.
  times_out :
      x.background ≡ polling
      → x.stop_monitoring_evt ≡ false
      → x.state ≡ monitoring
      → Step x (record x { background = acting })
  acts :
      x.background ≡ acting
      → Step x (record x { background = testing; stats_actions = suc x.stats_actions })
  action_raises :
      x.background ≡ acting
      → Step x (record x { background = finishing; stats_actions = suc x.stats_actions })
  finishes : x.background ≡ finishing → Step x (record x { state = stopped; background = absent })
  -- `shutdown` after its executor has no thread left.
  shuts_down : x.background ≡ absent → Step x (record x { state = shutdown })

pub data Steps (x : DiskMonitorTask) : DiskMonitorTask → Type 0 where
  stays : Steps x x
  and_then : {y z : DiskMonitorTask} → Steps x y → Step y z → Steps x z
