-- ===== src/Remote/Overall.antt =====
-- The status and progress of several remote tasks (src/ska_pst_lmc/util/remote_task.py,
-- `AggregateRemoteTask._remote_task_updated`).
use ska_pst_lmc.Prelude.{
  ℕ, suc, ◌+◌, ◌*◌, ◌/◌, ◌≤◌, ◌≡◌, ◌≢◌, refl, Bool, true, false, ◌&&◌, ◌||◌, some, List, [], ◌∷◌,
  length, All, if◌then◌else◌, arith,
}
use ska_pst_lmc.Remote.{
  TaskStatus, in_progress, completed, RemoteTask, AggregateRemoteTask, same_status, or_zero, gather,
  remote_task_updated,
}

abbrev pub all_completed : List RemoteTask → Bool
all_completed [] = true
all_completed (t ∷ ts) = same_status t.status completed && all_completed ts

abbrev pub some_in_progress : List RemoteTask → Bool
some_in_progress [] = false
some_in_progress (t ∷ ts) = same_status t.status in_progress || some_in_progress ts

-- The status of the first task that is not completed.
abbrev pub first_other : List RemoteTask → TaskStatus
first_other [] = completed
first_other (t ∷ ts) =
    let rest = first_other ts in if same_status t.status completed then rest else t.status

-- The status of the tasks together.
abbrev pub overall : List RemoteTask → TaskStatus
overall ts = if some_in_progress ts then in_progress else first_other ts

abbrev pub total : List RemoteTask → ℕ
total [] = 0
total (t ∷ ts) = or_zero t.progress + total ts

gather_from :
    (ts : List RemoteTask) (progress : ℕ) (status : TaskStatus)
    → status ≢ completed
    → gather ts progress status
      ≡ (progress + total ts, (if some_in_progress ts then in_progress else status))
gather_from [] progress status h = ground arith
gather_from (t ∷ ts) progress status h = ground (
  arith,
  gather_from ts (progress + or_zero t.progress) status,
  gather_from ts (progress + or_zero t.progress) in_progress,
)

gather_lem :
    (ts : List RemoteTask) (progress : ℕ)
    → gather ts progress completed ≡ (progress + total ts, overall ts)
gather_lem [] progress = ground arith
gather_lem (t ∷ ts) progress = ground (
  arith,
  gather_lem ts (progress + or_zero t.progress),
  gather_from ts (progress + or_zero t.progress) t.status,
)

total-le :
    (ts : List RemoteTask) → All (λ t. or_zero t.progress ≤ 100) ts → total ts ≤ 100 * length ts
total-le [] h = omega arith
total-le (t ∷ ts) h = omega (arith, total-le ts h.1)

average-le : (sum n : ℕ) → sum ≤ 100 * suc n → sum / suc n ≤ 100
average-le sum n h = grind arith

overall_completed : (ts : List RemoteTask) → (same_status (overall ts) completed ≡ all_completed ts)
overall_completed [] = refl
overall_completed (t ∷ ts) = ground (arith, overall_completed ts)

updated_lem :
    (a : AggregateRemoteTask) (t : RemoteTask) (ts : List RemoteTask)
    → a.tasks ≡ t ∷ ts
    → let status = overall (t ∷ ts) in
      let progress =
        if same_status status completed then 100 else total (t ∷ ts) / suc (length ts) in
      remote_task_updated a
      ≡ some (record a { status = status; told = (status, some progress) ∷ a.told })
unfolding remote_task_updated
updated_lem a t ts e = ground (arith, gather_lem (t ∷ ts) 0)

-- An update of any task tells the callback the status and the progress of all: COMPLETED exactly when
-- every task is completed, else IN_PROGRESS when a task is in progress, else the status of the first
-- task that is not completed. When no task is beyond 100 per cent, neither is the progress told, and it
-- is 100 when all are completed.
pub update_tells_overall :
    (a : AggregateRemoteTask) (t : RemoteTask) (ts : List RemoteTask)
    → a.tasks ≡ t ∷ ts
    → All (λ u. or_zero u.progress ≤ 100) (t ∷ ts)
    → let status = overall (t ∷ ts) in
      (same_status status completed ≡ all_completed (t ∷ ts))
      × ((progress : ℕ) × (remote_task_updated a
            ≡ some (record a { status = status; told = (status, some progress) ∷ a.told }))
          × (progress ≤ 100)
          × (all_completed (t ∷ ts) ≡ true → progress ≡ 100))
update_tells_overall a t ts e bounded =
    let status = overall (t ∷ ts) in
    let average = total (t ∷ ts) / suc (length ts) in
    let progress = if same_status status completed then 100 else average in
    let low : average ≤ 100 = average-le (total (t ∷ ts)) (length ts) (total-le (t ∷ ts) bounded) in
    (
      overall_completed (t ∷ ts),
      (
        progress,
        updated_lem a t ts e,
        ground arith,
        λ all. ground (arith, all, overall_completed (t ∷ ts)),
      ),
    )
