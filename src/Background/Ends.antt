-- ===== src/Background/Ends.antt =====
-- A stop that comes too early (src/ska_pst_lmc/util/background_task.py, `BackgroundTask`).
use ska_pst_lmc.Prelude.{
  ℕ, zero, suc, ◌≡◌, refl, Bool, true, false, Option, none, some, List, [], ◌∷◌, ◌&&◌, arith,
}
use ska_pst_lmc.Background.{running, task_running}
use ska_pst_lmc.Background.Thread.{
  Life, begun, looping, acting, returns, World, new_world, Event, enter, test_loop, act, call_stop,
  return_join, step, steps,
}
use ska_pst_lmc.Background.Invariant.{is_consistent, reached-consistent}

abbrev pub in_loop : Life → Bool
in_loop looping = true
in_loop acting = true
in_loop _ = false

abbrev pub turns : ℕ → List Event
turns zero = []
turns (suc n) = test_loop ∷ act returns ∷ turns n

-- The owner waits, the task runs, and the wait cannot end.
abbrev pub waits_on : World → Bool
waits_on w = w.joining && task_running w.task && in_loop w.life

abbrev pub stuck : Option World → Bool
stuck none = false
stuck (some w) = waits_on w && elim (step true return_join w) [ none ↦ true | some next ↦ false ]

turns-stuck :
    (n : ℕ) (w : World)
    → w.life ≡ looping
    → waits_on w ≡ true
    → stuck (steps true (turns n) w) ≡ true
unfolding steps step
turns-stuck zero w at waits = ground arith
turns-stuck (suc n) w at waits = ground (arith, turns-stuck n w at waits)

consistent_lost :
    (n : ℕ) (w : World)
    → is_consistent w ≡ true
    → w.joining ≡ false
    → w.life ≡ begun
    → stuck (steps true (call_stop ∷ enter ∷ turns n) w) ≡ true
unfolding steps step
consistent_lost n w ok free at = ground (
  arith,
  turns-stuck n
      (record w { task = record w.task { state = running }; life = looping; joining = true }) refl,
)

-- A stop of a periodic task before its thread has entered `_run` is lost, in any state that is reached:
-- the thread writes over it, and then, however many turns the action makes, the task still runs and the
-- owner still waits.
pub stop_is_lost :
    (es : List Event) (n : ℕ) (w : World)
    → steps true es new_world ≡ some w
    → w.joining ≡ false
    → w.life ≡ begun
    → stuck (steps true (call_stop ∷ enter ∷ turns n) w) ≡ true
stop_is_lost es n w at = consistent_lost n w (reached-consistent true es w at)
