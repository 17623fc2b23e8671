-- ===== src/Monitoring.antt =====
-- Monitoring data of the subbands (src/ska_pst_lmc/component/monitor_data_handler.py): a store under
-- subband ids, and the handler that keeps what is made of it and tells a callback.
pub mod Subbands
pub mod Smrb
pub mod SmrbTotals
pub mod Handler
pub mod Dsp
pub mod Disk
pub mod Receive
pub mod ReceiveTotals
mod Examples
mod DiskExamples
use ska_pst_lmc.Prelude.{
  ℕ, Bool, true, false, Option, none, some, List, [], ◌∷◌, insert, nat_key, if◌then◌else◌,
}

-- `MonitorDataHandler` with its `MonitorDataStore`; `told` are the callback's calls, the latest first.
pub record MonitorDataHandler (S T : Type 0) : Type 0 where
  pub subband_data : List (ℕ × S)
  pub monitor_data : T
  pub told : List T

-- `aggregate` is the store's property `monitor_data`; `none` is an exception that it raises, which
-- leaves the handler's method. The methods say whether they returned.
module _ {S T : Type 0} (aggregate : List (ℕ × S) → Option T) where
  unfoldable pub update_monitor_data : Bool → MonitorDataHandler S T → Bool × MonitorDataHandler S T
  update_monitor_data notify h = elim (aggregate h.subband_data) [
    | none ↦ (false, h)
    | some t ↦ (
      true,
      (if notify
          then record h { monitor_data = t; told = t ∷ h.told }
          else record h { monitor_data = t }),
    )
  ]

  unfoldable pub handle_subband_data :
      ℕ → S → MonitorDataHandler S T → Bool × MonitorDataHandler S T
  unfolding update_monitor_data
  handle_subband_data subband_id subband h =
      update_monitor_data true
        (record h { subband_data = insert subband_id subband h.subband_data })

  unfoldable pub reset_monitor_data : MonitorDataHandler S T → Bool × MonitorDataHandler S T
  unfolding update_monitor_data
  reset_monitor_data h = update_monitor_data true (record h { subband_data = [] })

  -- `MonitorDataHandler.__init__` over an empty store.
  unfoldable pub new_handler : Option (MonitorDataHandler S T)
  new_handler = elim (aggregate []) [
    | none ↦ none
    | some t ↦ some (record { subband_data = []; monitor_data = t; told = [] })
  ]
