-- ===== src/Process/Monitor/Ends.antt =====
-- Whether stopping the monitoring of a process ends (src/ska_pst_lmc/component/process_api.py,
-- `monitor` and `_stop_monitoring`).
use ska_pst_lmc.Prelude.{
  ◌≡◌, refl, ◌≢◌, ◌⊎◌, inl, inr, Bool, true, false, Option, none, some, arith,
}
use ska_pst_lmc.Process.Monitor.{
  Monitoring, streaming, cleaning, notifying, returned, stop_scan, monitor, starting, waiting_soon,
  waiting, through, Monitors, Step, stream_ends, cleans, notifies, nothing_to_stop, sets_event,
  monitors, stops_previous, waits, Steps, here, next,
}

-- The system when a process is monitored and the other thread is about to take the lock.
abbrev pub monitored : Monitors
monitored = record {
  abort_event = some false;
  locked = false;
  monitoring = streaming;
  stopping = starting;
}

-- The other thread keeps the lock, and the monitoring thread has not been past it.
record Locked (x : Monitors) : Type 0 where
  held : x.locked ≡ true
  behind : (x.monitoring ≡ streaming) ⊎ (x.monitoring ≡ cleaning)
  waiting_still : (x.stopping ≡ waiting_soon) ⊎ (x.stopping ≡ waiting)

Locked-Step : {x y : Monitors} → Step monitor x y → Locked x → Locked y
Locked-Step (stream_ends m) l = record {
  held = l.held;
  behind = inr refl;
  waiting_still = l.waiting_still;
}
Locked-Step (cleans m u) l = let h = l.held in cc
Locked-Step (notifies m) l = let h = l.behind in ground arith
Locked-Step (nothing_to_stop c s e) l = cc
Locked-Step (sets_event b c s e) l = cc
Locked-Step (monitors c s e) l = let h = l.waiting_still in ground arith
Locked-Step (stops_previous c s e) l = let h = l.waiting_still in ground arith
Locked-Step (waits s) l = record { held = l.held; behind = l.behind; waiting_still = inr refl }

Locked-Steps : {x y : Monitors} → Steps monitor x y → Locked x → Locked y
Locked-Steps here l = l
Locked-Steps (next ss s) l = Locked-Step s (Locked-Steps ss l)

monitored-Locked : {x : Monitors} → Step monitor monitored x → x.stopping ≡ waiting_soon → Locked x
monitored-Locked (stream_ends m) soon = cc
monitored-Locked (cleans m u) soon = cc
monitored-Locked (notifies m) soon = cc
monitored-Locked (nothing_to_stop c s e) soon = cc
monitored-Locked (sets_event b c s e) soon = cc
monitored-Locked (monitors c s e) soon = cc
monitored-Locked (stops_previous c s e) soon = record {
  held = refl;
  behind = inl refl;
  waiting_still = inl refl;
}
monitored-Locked (waits s) soon = cc

-- When `monitor` is called while the process is monitored, and it finds the lock free, then, in every
-- interleaving from there, neither does the first monitoring end nor does the second begin.
pub second_monitor_deadlocks :
    (x y : Monitors)
    → Step monitor monitored x
    → x.stopping ≡ waiting_soon
    → Steps monitor x y
    → (y.monitoring ≢ returned) × (y.stopping ≢ through)
second_monitor_deadlocks x y first_step soon run =
    let l = Locked-Steps run (monitored-Locked first_step soon) in
    ((λ e. let b = l.behind in ground arith), (λ e. let w = l.waiting_still in ground arith))

-- The stop waits until the notification.
abbrev Paired : Monitors → Type 0
Paired x =
    (x.monitoring ≢ returned) × (x.stopping ≡ waiting)
    ⊎ (x.monitoring ≡ returned) × (x.stopping ≡ through)

Paired-Step : {x y : Monitors} → Step stop_scan x y → Paired x → Paired y
Paired-Step (stream_ends m) p = ground arith
Paired-Step (cleans m u) p = ground arith
Paired-Step (notifies m) p = ground arith
Paired-Step (nothing_to_stop c s e) p = ground arith
Paired-Step (sets_event b c s e) p = ground arith
Paired-Step (monitors c s e) p = cc
Paired-Step (stops_previous c s e) p = cc
Paired-Step (waits s) p = ground arith

Paired-Steps : {x y : Monitors} → Steps stop_scan x y → Paired x → Paired y
Paired-Steps here p = p
Paired-Steps (next ss s) p = Paired-Step s (Paired-Steps ss p)

-- A thread that stops monitoring and waits before the notification returns by the time that the
-- monitoring thread has returned.
pub stop_returns :
    (x y : Monitors)
    → x.stopping ≡ waiting
    → x.monitoring ≢ returned
    → Steps stop_scan x y
    → y.monitoring ≡ returned
    → y.stopping ≡ through
stop_returns x y waits_now open_still run ended =
    let p = Paired-Steps run (inl (open_still, waits_now)) in ground arith

abbrev pub between : Option Bool → Monitoring → Monitors
between event m = record {
  abort_event = event;
  locked = false;
  monitoring = m;
  stopping = waiting_soon;
}

abbrev missed : Option Bool → Monitors
missed event = record {
  abort_event = event;
  locked = false;
  monitoring = returned;
  stopping = waiting;
}

missed-stuck : (event : Option Bool) (z : Monitors) → ¬ Step stop_scan (missed event) z
missed-stuck event z (stream_ends m) = cc
missed-stuck event z (cleans m u) = cc
missed-stuck event z (notifies m) = cc
missed-stuck event z (nothing_to_stop c s e) = cc
missed-stuck event z (sets_event b c s e) = cc
missed-stuck event z (monitors c s e) = cc
missed-stuck event z (stops_previous c s e) = cc
missed-stuck event z (waits s) = cc

-- Wherever the monitoring thread stands when a thread has asked it to stop and does not wait yet, it
-- can happen that the notification comes before the wait, and then the thread waits and no thread can
-- take a step.
pub stop_misses_notification :
    (event : Option Bool) (m : Monitoring)
    → (y : Monitors) × Steps stop_scan (between event m) y
      × (y.stopping ≡ waiting)
      × ((z : Monitors) → ¬ Step stop_scan y z)
stop_misses_notification event streaming = (
  missed none,
  next (next (next (next here (stream_ends refl)) (cleans refl refl)) (notifies refl)) (waits refl),
  refl,
  missed-stuck none,
)
stop_misses_notification event cleaning = (
  missed none,
  next (next (next here (cleans refl refl)) (notifies refl)) (waits refl),
  refl,
  missed-stuck none,
)
stop_misses_notification event notifying =
    (missed event, next (next here (notifies refl)) (waits refl), refl, missed-stuck event)
stop_misses_notification event returned =
    (missed event, next here (waits refl), refl, missed-stuck event)
