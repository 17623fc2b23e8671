-- ===== src/Monitoring/Disk.antt =====
-- What is made of the monitoring data of DSP's disk (src/ska_pst_lmc/dsp/dsp_model.py).
use ska_pst_lmc.Prelude.{
  ℕ, zero, suc, ◌+◌, ◌-◌, ◌<◌, ◌≤◌, ◌≡◌, ◌⊎◌, refl, ap, ◌∙◌, true, min, Option, none, some, List,
  [], ◌∷◌, All, length, set, get_elem?, length-set, length-replicate, lookup, distinct, nat_key,
  arith,
}
use ska_pst_lmc.Floats.{Floats}
use ska_pst_lmc.Monitoring.Subbands.{set_item-some, total, Fit, entry, entry-there, entry-set}
use ska_pst_lmc.Monitoring.Dsp.{
  max_size, negsuc, minus, DspDiskSubbandMonitorData, DspDiskMonitorData, DspDiskMonitorDataStore,
  disk_used_bytes, update_disk_stats, reset, Totals, add_subband, add_subbands, no_totals,
  default_data, made_of, dsp_monitor_data,
}

minus-below : (a b : ℕ) → a < b → minus a b ≡ negsuc (b - a - 1)
minus-below a b h = ground arith

module _ (f : Floats) (epsilon : f.F) where
  abbrev Subband : Type 0
  Subband = DspDiskSubbandMonitorData f

  abbrev pub Items : Type 0
  Items = List (ℕ × Subband)

  -- `m` is the greatest number that is at most `top` and at most each subband's.
  abbrev pub IsLeast : (Subband → ℕ) → Items → ℕ → ℕ → Type 0
  IsLeast of items top m =
      All (λ item. m ≤ of item.1) items
      × (m ≤ top)
      × ((b : ℕ) → b ≤ top → All (λ item. b ≤ of item.1) items → b ≤ m)

  -- The sum of the rates, added to `rate` in turn.
  abbrev pub sum_of_rates : f.F → Items → f.F
  sum_of_rates rate [] = rate
  sum_of_rates rate ((subband_id, subband) ∷ items) =
      sum_of_rates (f.plus rate subband.data_record_rate) items

  record Sized (n : ℕ) (t : Totals f epsilon) : Type 0 where
    of_recordeds : length t.recordeds ≡ n
    of_rates : length t.rates ≡ n

  abbrev added : ℕ → Subband → Totals f epsilon → Totals f epsilon
  added idx subband t = record {
    capacity = min t.capacity subband.disk_capacity;
    space = min t.space subband.available_disk_space;
    recorded = t.recorded + subband.data_recorded;
    rate = f.plus t.rate subband.data_record_rate;
    recordeds = set t.recordeds idx subband.data_recorded;
    rates = set t.rates idx subband.data_record_rate;
  }

  add_subband_lem :
      (n idx : ℕ) (subband : Subband) (t : Totals f epsilon)
      → Sized n t
      → suc idx ≤ n
      → (add_subband f epsilon (suc idx) subband t ≡ some (added idx subband t))
        × Sized n (added idx subband t)
  unfolding add_subband
  add_subband_lem n idx subband t z h = (
    ground (
      arith,
      z.of_recordeds,
      z.of_rates,
      set_item-some t.recordeds idx subband.data_recorded,
      set_item-some t.rates idx subband.data_record_rate,
    ),
    record {
      of_recordeds = length-set t.recordeds idx _ ∙ z.of_recordeds;
      of_rates = length-set t.rates idx _ ∙ z.of_rates;
    },
  )

  IsLeast-added :
      (of : Subband → ℕ) (id : ℕ) (subband : Subband) (items : Items) (top m : ℕ)
      → IsLeast of items (min top (of subband)) m
      → IsLeast of ((id, subband) ∷ items) top m
  IsLeast-added of id subband items top m (all, below, greatest) = (
    (omega (arith, below), all),
    omega (arith, below),
    λ b under (first, rest). greatest b (omega (arith, under, first)) rest,
  )

  add_subbands_lem :
      (n : ℕ) (items : Items) (t : Totals f epsilon)
      → Sized n t
      → Fit n items
      → distinct items ≡ true
      → (t' : Totals f epsilon) × (add_subbands f epsilon items t ≡ some t')
        × IsLeast (λ d. d.disk_capacity) items t.capacity t'.capacity
        × IsLeast (λ d. d.available_disk_space) items t.space t'.space
        × (t'.recorded ≡ t.recorded + total (λ d. d.data_recorded) items)
        × (t'.rate ≡ sum_of_rates t.rate items)
        × ((i : ℕ)
            → (get_elem? t'.recordeds i
                ≡ entry (λ d. d.data_recorded) items i (get_elem? t.recordeds i))
              × (get_elem? t'.rates i
                  ≡ entry (λ d. d.data_record_rate) items i (get_elem? t.rates i)))
  unfolding add_subbands
  add_subbands_lem n [] t z fit d = (
    t,
    refl,
    (tt, omega arith, λ b u a. u),
    (tt, omega arith, λ b u a. u),
    omega arith,
    refl,
    λ i. (refl, refl),
  )
  add_subbands_lem n ((zero, subband) ∷ items) t z fit d = absurd (omega (arith, fit.0.0))
  add_subbands_lem n ((suc idx, subband) ∷ items) t z fit d =
      let (run, z₁) = add_subband_lem n idx subband t z fit.0.1 in
      let (t', run', capacity, space, recorded, rate, at) =
        add_subbands_lem n items (added idx subband t) z₁ fit.1 (ground arith) in
      (
        t',
        rw run run',
        IsLeast-added (λ d. d.disk_capacity) (suc idx) subband items t.capacity t'.capacity
            capacity,
        IsLeast-added (λ d. d.available_disk_space) (suc idx) subband items t.space t'.space space,
        omega arith,
        rate,
        λ i. (
          (at i).0
              ∙ entry-set (λ d. d.data_recorded) items t.recordeds idx i subband
                  (omega (arith, z.of_recordeds, fit.0.1)) d,
          (at i).1
              ∙ entry-set (λ d. d.data_record_rate) items t.rates idx i subband
                  (omega (arith, z.of_rates, fit.0.1)) d,
        ),
      )

  Sized-no_totals : (n : ℕ) → Sized n (no_totals f epsilon n)
  Sized-no_totals n = record {
    of_recordeds = length-replicate n 0;
    of_rates = length-replicate n (f.of_int 0);
  }

  made_data :
      (item : ℕ × Subband) (items : Items) (store : DspDiskMonitorDataStore Subband)
      (t : Totals f epsilon) (q : f.F)
      → store.subband_data ≡ item ∷ items
      → add_subbands f epsilon (item ∷ items) (no_totals f epsilon (length (item ∷ items))) ≡ some t
      → f.divide (f.of_int t.space) (f.plus t.rate epsilon) ≡ some q
      → dsp_monitor_data f epsilon store
        ≡ some (
          made_of f epsilon t q,
          record store { disk_capacity = t.capacity; available_disk_space = t.space },
        )
  unfolding dsp_monitor_data
  made_data item items store t q stored run e = rw (stored, run, e)

  -- When there are subbands, their ids are different and between 1 and their number, and a division by
  -- the sum of their rates and epsilon does not raise, the monitoring data are made: capacity and space
  -- are the least of the subbands, up to the largest size, the bytes recorded and the rate are the sums,
  -- the recording time is the space divided by the rate and epsilon, and each list has at place i the
  -- value of the subband i + 1. After a reset the data have the same capacity and space, and nothing is recorded.
  pub dsp_monitor_data_lem :
      (item : ℕ × Subband) (items : Items) (store : DspDiskMonitorDataStore Subband)
      → store.subband_data ≡ item ∷ items
      → Fit (length (item ∷ items)) (item ∷ items)
      → distinct (item ∷ items) ≡ true
      → ((x : f.F)
          → (q : f.F) × (f.divide x (f.plus (sum_of_rates (f.of_int 0) (item ∷ items)) epsilon)
              ≡ some q))
      → (r : DspDiskMonitorData f) × (store' : DspDiskMonitorDataStore Subband) × (dsp_monitor_data
            f epsilon store
          ≡ some (r, store'))
        × IsLeast (λ d. d.disk_capacity) (item ∷ items) max_size r.disk_capacity
        × IsLeast (λ d. d.available_disk_space) (item ∷ items) max_size r.available_disk_space
        × (r.data_recorded ≡ total (λ d. d.data_recorded) (item ∷ items))
        × (r.data_record_rate ≡ sum_of_rates (f.of_int 0) (item ∷ items))
        × (f.divide (f.of_int r.available_disk_space) (f.plus r.data_record_rate epsilon)
            ≡ some r.available_recording_time)
        × ((i : ℕ) (subband : Subband)
            → lookup (suc i) (item ∷ items) ≡ some subband
            → (get_elem? r.subband_data_recorded i ≡ some subband.data_recorded)
              × (get_elem? r.subband_data_record_rate i ≡ some subband.data_record_rate))
        × (dsp_monitor_data f epsilon (reset store')
            ≡ some (default_data f epsilon r.disk_capacity r.available_disk_space, reset store'))
  unfolding dsp_monitor_data
  dsp_monitor_data_lem item items store stored fit d divides =
      let n = length (item ∷ items) in
      let (t, run, capacity, space, recorded, rate, at) =
        add_subbands_lem n (item ∷ items) (no_totals f epsilon n) (Sized-no_totals n) fit d in
      let (q, e) = divides (f.of_int t.space) in
      let made : f.divide (f.of_int t.space) (f.plus t.rate epsilon) ≡ some q =
        ap (λ x. f.divide (f.of_int t.space) (f.plus x epsilon)) rate ∙ e in
      (
        made_of f epsilon t q,
        record store { disk_capacity = t.capacity; available_disk_space = t.space },
        made_data item items store t q stored run made,
        capacity,
        space,
        omega (arith, recorded),
        rate,
        made,
        λ i subband there. (
          (at i).0 ∙ entry-there (λ d. d.data_recorded) (item ∷ items) i _ there,
          (at i).1 ∙ entry-there (λ d. d.data_record_rate) (item ∷ items) i _ there,
        ),
        refl,
      )

  -- When the process reports a disk that has no space left, by either of the two names and not by the
  -- other, the store takes it for a disk with the largest space, and the number of bytes used is
  -- negative.
  pub full_disk_has_space :
      (capacity : ℕ) (available : Option ℕ) (store : DspDiskMonitorDataStore Subband)
      → store.subband_data ≡ []
      → capacity < max_size
      → (available ≡ none) ⊎ (available ≡ some 0)
      → (r : DspDiskMonitorData f) × (dsp_monitor_data f epsilon
            (update_disk_stats capacity (some 0) available store)
          ≡ some (r, update_disk_stats capacity (some 0) available store))
        × (r.available_disk_space ≡ max_size)
        × ((n : ℕ) × (disk_used_bytes f r ≡ negsuc n))
  unfolding dsp_monitor_data update_disk_stats disk_used_bytes
  full_disk_has_space capacity available store none_stored small full = (
    default_data f epsilon capacity max_size,
    ground (arith, none_stored, full),
    refl,
    (max_size - capacity - 1, minus-below capacity max_size small),
  )
