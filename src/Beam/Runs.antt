-- ===== src/Beam/Runs.antt =====
-- Runs of the workers in which every device accepts its command
-- (src/ska_pst_lmc/job/task_executor.py).
use ska_pst_lmc.Prelude.{String, ◌≡◌, refl, Bool, true, none, [], ◌∷◌, string_key}
use ska_pst_lmc.Job.{device_command, Outcome, success, TaskContext}
use ska_pst_lmc.Job.Parallel.{
  returned as returned_phase, Subtask, ParallelTaskContext, submitted, join, takes, settles, joins,
  Steps, here, next,
}
use ska_pst_lmc.Job.Executor.{
  Ends, ends_one_device, ends_devices, ends_parallel, together_nil, together_ended, merge_nil,
  merge_left, merge_right,
}
use ska_pst_lmc.Beam.{Device, Action, Lambda}

abbrev pub completed_context : TaskContext String String
completed_context = record { evt = true; result = none; exception = none }

abbrev pub done : Subtask String String
done = record { phase = returned_phase; context = completed_context }

abbrev pub two_done : ParallelTaskContext String String
two_done = record { parent = completed_context; subtasks = done ∷ done ∷ [] }

pub two_run : Steps (submitted 2) 6 two_done
unfolding join
two_run =
    next
      (next
        (next
          (next (next (next here (takes 0 _ refl refl)) (takes 1 _ refl refl))
            (settles 0 _ success none refl refl refl))
          (settles 1 _ success none refl refl refl))
        (joins 1 _ refl refl refl))
      (joins 0 _ refl refl refl)

abbrev pub four_done : ParallelTaskContext String String
four_done = record { parent = completed_context; subtasks = done ∷ done ∷ done ∷ done ∷ [] }

pub four_run : Steps (submitted 4) 12 four_done
unfolding join
four_run =
    next
      (next
        (next
          (next
            (next
              (next
                (next
                  (next
                    (next
                      (next (next (next here (takes 0 _ refl refl)) (takes 1 _ refl refl))
                        (takes 2 _ refl refl))
                      (takes 3 _ refl refl))
                    (settles 0 _ success none refl refl refl))
                  (settles 1 _ success none refl refl refl))
                (settles 2 _ success none refl refl refl))
              (settles 3 _ success none refl refl refl))
            (joins 0 _ refl refl refl))
          (joins 1 _ refl refl refl))
        (joins 2 _ refl refl refl))
      (joins 3 _ refl refl refl)

abbrev pub three_done : ParallelTaskContext String String
three_done = record { parent = completed_context; subtasks = done ∷ done ∷ done ∷ [] }

pub three_run : Steps (submitted 3) 9 three_done
unfolding join
three_run =
    next
      (next
        (next
          (next
            (next
              (next
                (next (next (next here (takes 0 _ refl refl)) (takes 1 _ refl refl))
                  (takes 2 _ refl refl))
                (settles 0 _ success none refl refl refl))
              (settles 1 _ success none refl refl refl))
            (settles 2 _ success none refl refl refl))
          (joins 0 _ refl refl refl))
        (joins 1 _ refl refl refl))
      (joins 2 _ refl refl refl)

abbrev pub Accepts : Device → Action → Outcome String → Type 0
Accepts d a o = o ≡ success

abbrev pub LambdaRuns : Lambda → Outcome String → Type 0
LambdaRuns f o = o ≡ success

module _ {busy : Bool} (a : Action) (name : String) where
  pub two_devices :
      (d e : Device)
      → Ends Device Action Lambda String String Accepts LambdaRuns busy
          (device_command (d ∷ e ∷ []) a name)
          ((d, a) ∷ (e, a) ∷ [])
          success
  two_devices d e = ends_devices (
      ends_parallel two_run refl (
        together_ended refl (ends_one_device refl)
          (together_ended refl (ends_one_device refl) together_nil (merge_left merge_nil))
          (merge_left (merge_right merge_nil))))

  pub three_devices :
      (d e f : Device)
      → Ends Device Action Lambda String String Accepts LambdaRuns busy
          (device_command (d ∷ e ∷ f ∷ []) a name)
          ((d, a) ∷ (e, a) ∷ (f, a) ∷ [])
          success
  three_devices d e f = ends_devices (
      ends_parallel three_run refl (
        together_ended refl (ends_one_device refl)
          (together_ended refl (ends_one_device refl)
            (together_ended refl (ends_one_device refl) together_nil (merge_left merge_nil))
            (merge_left (merge_right merge_nil)))
          (merge_left (merge_right (merge_right merge_nil)))))

  pub four_devices :
      (d e f g : Device)
      → Ends Device Action Lambda String String Accepts LambdaRuns busy
          (device_command (d ∷ e ∷ f ∷ g ∷ []) a name)
          ((d, a) ∷ (e, a) ∷ (f, a) ∷ (g, a) ∷ [])
          success
  four_devices d e f g = ends_devices (
      ends_parallel four_run refl (
        together_ended refl (ends_one_device refl)
          (together_ended refl (ends_one_device refl)
            (together_ended refl (ends_one_device refl)
              (together_ended refl (ends_one_device refl) together_nil (merge_left merge_nil))
              (merge_left (merge_right merge_nil)))
            (merge_left (merge_right (merge_right merge_nil))))
          (merge_left (merge_right (merge_right (merge_right merge_nil))))))
