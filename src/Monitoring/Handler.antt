-- ===== src/Monitoring/Handler.antt =====
-- What the handler of the monitoring data tells (src/ska_pst_lmc/component/monitor_data_handler.py).
use ska_pst_lmc.Prelude.{ℕ, ◌≡◌, refl, Option, none, some, List, [], ◌∷◌, insert, nat_key}
use ska_pst_lmc.Monitoring.{MonitorDataHandler, handle_subband_data, reset_monitor_data}

-- What reaches a handler: the data of a subband, or a reset.
pub data Update (S : Type 0) : Type 0 where
  subband : ℕ → S → Update S
  reset : Update S

module _ {S T : Type 0} (aggregate : List (ℕ × S) → Option T) where
  unfoldable pub apply : MonitorDataHandler S T → Update S → MonitorDataHandler S T
  unfolding handle_subband_data reset_monitor_data
  apply h (subband subband_id s) = (handle_subband_data aggregate subband_id s h).1
  apply h reset = (reset_monitor_data aggregate h).1

  unfoldable pub apply_all : MonitorDataHandler S T → List (Update S) → MonitorDataHandler S T
  apply_all h [] = h
  apply_all h (u ∷ us) = apply_all (apply h u) us

  -- The store after the updates: the latest data of every subband since the last reset.
  abbrev pub stored : List (ℕ × S) → List (Update S) → List (ℕ × S)
  stored d [] = d
  stored d (subband subband_id s ∷ us) = stored (insert subband_id s d) us
  stored d (reset ∷ us) = stored [] us

  -- What the callback was told after the updates, the latest first: for each update after which the
  -- store makes its data without an exception, what it makes of the latest data since the last reset.
  abbrev pub told_of : List (ℕ × S) → List (Update S) → List T → List T
  told_of d [] before = before
  told_of d (u ∷ us) before =
      told_of (stored d (u ∷ [])) us
        (elim (aggregate (stored d (u ∷ []))) [ none ↦ before | some t ↦ t ∷ before ])

  -- The first of the list, or `t`.
  abbrev pub latest : List T → T → T
  latest [] t = t
  latest (x ∷ xs) t = x

  told_of-next :
      (d : List (ℕ × S)) (u : Update S) (us : List (Update S)) (before : List T)
      → told_of d (u ∷ us) before ≡ told_of (stored d (u ∷ [])) us (told_of d (u ∷ []) before)
  told_of-next d u us before = refl
