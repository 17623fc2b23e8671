-- ===== src/Monitoring/Dsp.antt =====
-- The monitoring data of the disk that DSP writes to (src/ska_pst_lmc/dsp/dsp_model.py). Floating point
-- numbers are an interface; `of_integer` is the conversion of an `int` that may be negative.
use ska_pst_lmc.Prelude.{
  ℕ, zero, suc, ◌+◌, ◌-◌, ◌^◌, min, Option, none, some, ◌>>=◌, List, [], ◌∷◌, length, replicate,
  leb, insert, nat_key, if◌then◌else◌,
}
use ska_pst_lmc.Floats.{Floats}
use ska_pst_lmc.Monitoring.Subbands.{set_item}

-- `sys.maxsize` of a 64-bit machine.
abbrev pub max_size : ℕ
max_size = 2 ^ 63 - 1

pub data ℤ : Type 0 where
  pos negsuc : ℕ → ℤ

abbrev pub minus : ℕ → ℕ → ℤ
minus a b = if leb b a then pos (a - b) else negsuc (b - a - 1)

module _ (f : Floats) where
  pub record DspDiskSubbandMonitorData : Type 0 where
    pub disk_capacity : ℕ
    pub available_disk_space : ℕ
    pub data_recorded : ℕ
    pub data_record_rate : f.F

  pub record DspDiskMonitorData : Type 0 where
    pub disk_capacity : ℕ
    pub available_disk_space : ℕ
    pub data_recorded : ℕ
    pub data_record_rate : f.F
    pub available_recording_time : f.F
    pub subband_data_recorded : List ℕ
    pub subband_data_record_rate : List f.F

  unfoldable pub disk_used_bytes : DspDiskMonitorData → ℤ
  disk_used_bytes d = minus d.disk_capacity d.available_disk_space

module _ (f : Floats) (of_integer : ℤ → f.F) (epsilon : f.F) where
  -- `epsilon` is 1e-8.
  unfoldable pub disk_used_percentage : DspDiskMonitorData f → Option f.F
  disk_used_percentage d =
      f.divide (f.times (f.of_int 100) (of_integer (disk_used_bytes f d)))
        (f.plus (f.of_int d.disk_capacity) epsilon)

pub record DspDiskMonitorDataStore (S : Type 0) : Type 0 where
  pub subband_data : List (ℕ × S)
  pub disk_capacity : ℕ
  pub available_disk_space : ℕ

abbrev pub new_store : {S : Type 0} → DspDiskMonitorDataStore S
new_store = record { subband_data = []; disk_capacity = max_size; available_disk_space = max_size }

-- `a or b`, of an optional number: 0 counts as a missing one.
abbrev pub or_else : Option ℕ → ℕ → ℕ
or_else none b = b
or_else (some zero) b = b
or_else (some (suc n)) b = suc n

unfoldable pub update_disk_stats :
    {S : Type 0} → ℕ → Option ℕ → Option ℕ → DspDiskMonitorDataStore S → DspDiskMonitorDataStore S
update_disk_stats disk_capacity available_disk_space disk_available_bytes store = record store {
  disk_capacity = disk_capacity;
  available_disk_space = or_else available_disk_space (or_else disk_available_bytes max_size);
}

-- `update_subband` and `reset` of `MonitorDataStore`.
abbrev pub update_subband :
    {S : Type 0} → ℕ → S → DspDiskMonitorDataStore S → DspDiskMonitorDataStore S
update_subband subband_id subband store = record store {
  subband_data = insert subband_id subband store.subband_data;
}

abbrev pub reset : {S : Type 0} → DspDiskMonitorDataStore S → DspDiskMonitorDataStore S
reset store = record store { subband_data = [] }

module _ (f : Floats) (epsilon : f.F) where
  -- The variables of the loop in `monitor_data`.
  pub record Totals : Type 0 where
    pub capacity : ℕ
    pub space : ℕ
    pub recorded : ℕ
    pub rate : f.F
    pub recordeds : List ℕ
    pub rates : List f.F

  unfoldable pub add_subband : ℕ → DspDiskSubbandMonitorData f → Totals → Option Totals
  add_subband subband_id subband t =
      set_item t.recordeds subband_id subband.data_recorded >>= λ recordeds.
      set_item t.rates subband_id subband.data_record_rate >>= λ rates. some (record {
        capacity = min t.capacity subband.disk_capacity;
        space = min t.space subband.available_disk_space;
        recorded = t.recorded + subband.data_recorded;
        rate = f.plus t.rate subband.data_record_rate;
        recordeds = recordeds;
        rates = rates;
      })

  unfoldable pub add_subbands : List (ℕ × DspDiskSubbandMonitorData f) → Totals → Option Totals
  add_subbands [] t = some t
  add_subbands ((subband_id, subband) ∷ items) t =
      add_subband subband_id subband t >>= add_subbands items

  abbrev pub no_totals : ℕ → Totals
  no_totals n = record {
    capacity = max_size;
    space = max_size;
    recorded = 0;
    rate = f.of_int 0;
    recordeds = replicate n 0;
    rates = replicate n (f.of_int 0);
  }

  -- `DEFAULT_RECORDING_TIME` is a year, in seconds.
  abbrev pub default_recording_time : f.F
  default_recording_time = f.of_int 31536000

  -- The data without a subband.
  abbrev pub default_data : ℕ → ℕ → DspDiskMonitorData f
  default_data capacity space = record {
    disk_capacity = capacity;
    available_disk_space = space;
    data_recorded = 0;
    data_record_rate = f.of_int 0;
    available_recording_time = default_recording_time;
    subband_data_recorded = [];
    subband_data_record_rate = [];
  }

  abbrev pub made_of : Totals → f.F → DspDiskMonitorData f
  made_of t recording_time = record {
    disk_capacity = t.capacity;
    available_disk_space = t.space;
    data_recorded = t.recorded;
    data_record_rate = t.rate;
    available_recording_time = recording_time;
    subband_data_recorded = t.recordeds;
    subband_data_record_rate = t.rates;
  }

  -- The property also keeps the capacity and the space for the time when there is no subband.
  unfoldable pub dsp_monitor_data :
      DspDiskMonitorDataStore (DspDiskSubbandMonitorData f)
      → Option (DspDiskMonitorData f × DspDiskMonitorDataStore (DspDiskSubbandMonitorData f))
  dsp_monitor_data store = elim store.subband_data [
    | [] ↦ some (default_data store.disk_capacity store.available_disk_space, store)
    | item ∷ items ↦ add_subbands (item ∷ items) (no_totals (length (item ∷ items))) >>= λ t.
        f.divide (f.of_int t.space) (f.plus t.rate epsilon) >>= λ recording_time. some (
          made_of t recording_time,
          record store { disk_capacity = t.capacity; available_disk_space = t.space },
        )
  ]
