-- ===== src/Process/Monitor.antt =====
-- How monitoring of a process is stopped (src/ska_pst_lmc/component/process_api.py, `monitor` and
-- `_stop_monitoring`): the thread that monitors, and a thread that stops it, as one system. A wait on
-- the condition variable is ended only by a notification that comes after it has begun.
pub mod Ends
use ska_pst_lmc.Prelude.{ℕ, zero, suc, ◌≡◌, Bool, true, false, Option, none, some}

-- The thread in `monitor`: at the stream, before the lock of `finally`, past it and before the
-- notification, or returned.
pub data Monitoring : Type 0 where
  streaming cleaning notifying returned : Monitoring

-- The other thread: in `_stop_monitoring`, called by itself, or in another call of `monitor`.
pub data Caller : Type 0 where
  stop_scan monitor : Caller

-- Before the lock, between the event and the wait, in the wait, or past it: returned or monitoring.
pub data Stopping : Type 0 where
  starting waiting_soon waiting through : Stopping

-- `abort_event` is whether `_monitor_abort_event` is set, when there is one; `locked` is whether the
-- other thread holds `_monitor_lock` between its steps.
pub record Monitors : Type 0 where
  pub abort_event : Option Bool
  pub locked : Bool
  pub monitoring : Monitoring
  pub stopping : Stopping

abbrev pub notified : Caller → Monitors → Monitors
notified caller x = elim x.stopping [
  | waiting ↦ elim caller [
    | stop_scan ↦ record x { monitoring = returned; stopping = through }
    | monitor ↦ record x {
      monitoring = returned;
      stopping = through;
      abort_event = some false;
      locked = false;
    }
  ]
  | _ ↦ record x { monitoring = returned }
]

pub data Step (caller : Caller) (x : Monitors) : Monitors → Type 0 where
  -- The stream ends, with an exception or because of the event.
  stream_ends : x.monitoring ≡ streaming → Step caller x (record x { monitoring = cleaning })
  cleans :
      x.monitoring ≡ cleaning
      → x.locked ≡ false
      → Step caller x (record x { monitoring = notifying; abort_event = none })
  notifies : x.monitoring ≡ notifying → Step caller x (notified caller x)
  -- `_stop_monitoring` has nothing to stop.
  nothing_to_stop :
      caller ≡ stop_scan
      → x.stopping ≡ starting
      → x.abort_event ≡ none
      → Step caller x (record x { stopping = through })
  sets_event :
      (b : Bool)
      → caller ≡ stop_scan
      → x.stopping ≡ starting
      → x.abort_event ≡ some b
      → Step caller x (record x { stopping = waiting_soon; abort_event = some true })
  -- `monitor` takes the lock, and it keeps it while `_stop_monitoring` waits.
  monitors :
      caller ≡ monitor
      → x.stopping ≡ starting
      → (x.abort_event ≡ some false → ⊥)
      → Step caller x (record x { stopping = through; abort_event = some false })
  stops_previous :
      caller ≡ monitor
      → x.stopping ≡ starting
      → x.abort_event ≡ some false
      → Step caller x (record x { stopping = waiting_soon; abort_event = some true; locked = true })
  waits : x.stopping ≡ waiting_soon → Step caller x (record x { stopping = waiting })

pub data Steps (caller : Caller) (x : Monitors) : Monitors → Type 0 where
  here : Steps caller x x
  next : {y z : Monitors} → Steps caller x y → Step caller y z → Steps caller x z
