-- ===== src/Background/Examples.antt =====
-- Background tasks at concrete inputs (src/ska_pst_lmc/util/background_task.py).
use ska_pst_lmc.Prelude.{ℕ, ◌≡◌, refl, true, false, none, some, [], ◌∷◌, if◌then◌else◌, nat_beq}
use ska_pst_lmc.Background.{BackgroundTask, running, new_task, run, reap, reap_from}
use ska_pst_lmc.Background.Reaping.{skipping, select, runs, reap_skips}
use ska_pst_lmc.Background.Thread.{
  begun, acting, World, new_world, call_run, enter, test_loop, call_stop, step, steps,
}
use ska_pst_lmc.Background.Ends.{turns, stuck, stop_is_lost}

-- Tasks 1 and 2 are over and the others run.
abbrev tasks : ℕ → BackgroundTask
tasks t =
    if nat_beq t 1
    then record new_task { completed = true }
    else if nat_beq t 2
    then record new_task { completed = true }
    else record new_task { state = running; has_thread = true }

-- The second of two tasks that are over stays.
reap_leaves_second : reap tasks (1 ∷ 2 ∷ 3 ∷ []) ≡ 2 ∷ 3 ∷ []
unfolding reap reap_from
reap_leaves_second = refl

reap_skips_example :
    (reap tasks (1 ∷ 2 ∷ 3 ∷ []) ≡ skipping tasks (1 ∷ 2 ∷ 3 ∷ []))
    × (select (runs tasks) (reap tasks (1 ∷ 2 ∷ 3 ∷ [])) ≡ select (runs tasks) (1 ∷ 2 ∷ 3 ∷ []))
reap_skips_example = reap_skips tasks (1 ∷ 2 ∷ 3 ∷ []) refl

-- A task that is in its loop.
abbrev acting_world : World
acting_world = record {
  task = record new_task { state = running; has_thread = true };
  life = acting;
  joining = false;
}

abbrev begun_world : World
unfolding run
begun_world = elim (run new_task) [
  | none ↦ new_world
  | some t ↦ record { task = t; life = begun; joining = false }
]

acting_reached : steps true (call_run ∷ enter ∷ test_loop ∷ []) new_world ≡ some acting_world
unfolding steps step run
acting_reached = refl

begun_reached : steps true (call_run ∷ []) new_world ≡ some begun_world
unfolding steps step run
begun_reached = refl

stop_is_lost_example : stuck (steps true (call_stop ∷ enter ∷ turns 2) begun_world) ≡ true
unfolding begun_world
stop_is_lost_example = stop_is_lost (call_run ∷ []) 2 begun_world begun_reached refl refl
