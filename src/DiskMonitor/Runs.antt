-- ===== src/DiskMonitor/Runs.antt =====
-- When the task that polls the disk polls (src/ska_pst_lmc/dsp/disk_monitor_task.py).
use ska_pst_lmc.Prelude.{◌≡◌, refl, ◌∙◌, ◌≢◌, ◌⊎◌, inl, true, arith}
use ska_pst_lmc.DiskMonitor.{
  waiting, starting, monitoring, stopping, stopped, shutdown, absent, submitted, testing, finishing,
  DiskMonitorTask, new_task, Step, starts, stops, begins, goes_on, leaves, times_out, acts,
  action_raises, finishes, shuts_down, Steps, stays, and_then,
}

-- The thread is where the state says it can be.
abbrev Agree : DiskMonitorTask → Type 0
Agree x =
    ((x.state ≡ waiting) ⊎ (x.state ≡ stopped) ⊎ (x.state ≡ shutdown)) × (x.background ≡ absent)
    ⊎ ((x.state ≡ starting) ⊎ (x.state ≡ stopping)) × (x.background ≡ submitted)
    ⊎ ((x.state ≡ monitoring) ⊎ (x.state ≡ stopping)) × (x.background ≢ absent)

Agree-Step : {x y : DiskMonitorTask} → Step x y → Agree x → Agree y
Agree-Step (starts s) a = ground arith
Agree-Step (stops s) a = ground arith
Agree-Step (begins b) a = ground arith
Agree-Step (goes_on b e s) a = ground arith
Agree-Step (leaves b e) a = ground arith
Agree-Step (times_out b e s) a = ground arith
Agree-Step (acts b) a = ground arith
Agree-Step (action_raises b) a = ground arith
Agree-Step (finishes b) a = ground arith
Agree-Step (shuts_down b) a = ground arith

Agree-Steps : {x y : DiskMonitorTask} → Steps x y → Agree x → Agree y
Agree-Steps stays a = a
Agree-Steps (and_then ss s) a = Agree-Step s (Agree-Steps ss a)

-- In every state that a new task can come to, the thread has ended whenever the state is STOPPED, so
-- that a `stop_monitoring` that has waited for STOPPED leaves no thread that polls.
pub stopped_has_no_thread :
    (x : DiskMonitorTask) → Steps new_task x → x.state ≡ stopped → x.background ≡ absent
stopped_has_no_thread x run s = let a = Agree-Steps run (inl (inl refl, refl)) in ground arith

-- The event is set, and the thread is not on its way to the action.
abbrev Held : DiskMonitorTask → Type 0
Held x =
    (x.stop_monitoring_evt ≡ true)
    × ((x.background ≡ absent)
        ⊎ (x.background ≡ submitted)
        ⊎ (x.background ≡ testing)
        ⊎ (x.background ≡ finishing))

Held-Step :
    {x y : DiskMonitorTask} → Step x y → Held x → Held y × (y.stats_actions ≡ x.stats_actions)
Held-Step (starts s) h = ground arith
Held-Step (stops s) h = ground arith
Held-Step (begins b) h = ground arith
Held-Step (goes_on b e s) h = ground arith
Held-Step (leaves b e) h = ground arith
Held-Step (times_out b e s) h = ground arith
Held-Step (acts b) h = ground arith
Held-Step (action_raises b) h = ground arith
Held-Step (finishes b) h = ground arith
Held-Step (shuts_down b) h = ground arith

Held-Steps :
    {x y : DiskMonitorTask} → Steps x y → Held x → Held y × (y.stats_actions ≡ x.stats_actions)
Held-Steps stays h = (h, refl)
Held-Steps (and_then ss s) h =
    let (h', e) = Held-Steps ss h in let (h'', e') = Held-Step s h' in (h'', e' ∙ e)

-- Once monitoring has been stopped by its event and the thread has ended, the action is never called
-- again, however often monitoring is started: the event stays set.
pub restart_never_polls :
    (x y : DiskMonitorTask)
    → x.stop_monitoring_evt ≡ true
    → x.background ≡ absent
    → Steps x y
    → y.stats_actions ≡ x.stats_actions
restart_never_polls x y set ended run = (Held-Steps run (set, inl ended)).1
