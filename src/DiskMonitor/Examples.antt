-- ===== src/DiskMonitor/Examples.antt =====
-- The task that polls the disk, started, stopped and started again.
use ska_pst_lmc.Prelude.{refl, inl, inr, true}
use ska_pst_lmc.DiskMonitor.{
  stopped, absent, DiskMonitorTask, new_task, starts, stops, begins, goes_on, leaves, times_out,
  acts, finishes, Steps, stays, and_then,
}

abbrev stopped_task : DiskMonitorTask
stopped_task = record {
  state = stopped;
  stop_monitoring_evt = true;
  background = absent;
  stats_actions = 1;
}

polled_once : Steps new_task stopped_task
polled_once =
    and_then
      (and_then
        (and_then
          (and_then
            (and_then
              (and_then (and_then (and_then stays (starts (inl refl))) (begins refl))
                (goes_on refl refl refl))
              (times_out refl refl refl))
            (acts refl))
          (stops (inr refl)))
        (leaves (inl refl) (inl refl)))
      (finishes refl)
