-- ===== src/Monitoring/SmrbTotals.antt =====
-- What is made of the ring buffers' monitoring data (src/ska_pst_lmc/smrb/smrb_model.py).
use ska_pst_lmc.Prelude.{
  ℕ, zero, suc, ◌+◌, ◌<◌, ◌≤◌, ◌≡◌, refl, ap, sym, ◌∙◌, inl, inr, true, some, List, [], ◌∷◌, All,
  length, set, get_elem?, length-set, length-replicate, lookup, distinct, nat_key, ltb, arith,
  Bool-cases,
}
use ska_pst_lmc.Floats.{Floats}
use ska_pst_lmc.Monitoring.Subbands.{total, entry, entry-there, entry-set}
use ska_pst_lmc.Monitoring.Smrb.{
  SmrbSubbandMonitorData, SmrbMonitorData, utilisation, utilised_bytes, Totals, add_subband,
  add_subbands, no_totals, smrb_monitor_data, overall, default_data, made_of,
}

abbrev pub Items : Type 0
Items = List (ℕ × SmrbSubbandMonitorData)

-- `ratio` is the full buffers of a ring buffer divided by its number of buffers.
module _ (f : Floats)
    (divides : (x : f.F) (b : ℕ) → 0 < b → (q : f.F) × (f.divide x (f.of_int b) ≡ some q))
    (ratio : SmrbSubbandMonitorData → f.F) where
  -- The subband ids are 1 to `n` and every ring buffer has its ratio.
  abbrev pub HaveRatios : ℕ → Items → Type 0
  HaveRatios n items =
      All
        (λ item.
          (0 < item.0)
          × (item.0 ≤ n)
          × (f.divide (f.of_int item.1.full) (f.of_int item.1.num_of_buffers)
              ≡ some (ratio item.1)))
        items

  -- The sum of the sizes times the ratios, added to `bytes` in turn.
  abbrev pub sum_of_utilised : f.F → Items → f.F
  sum_of_utilised bytes [] = bytes
  sum_of_utilised bytes ((subband_id, d) ∷ items) =
      sum_of_utilised (f.plus bytes (f.times (ratio d) (f.of_int d.buffer_size))) items

  -- Each subband's percentage of full buffers.
  abbrev pub percentage : SmrbSubbandMonitorData → f.F
  percentage d = f.times (ratio d) (f.of_int 100)

  record Sized (n : ℕ) (t : Totals f) : Type 0 where
    of_utilisations : length t.utilisations ≡ n
    of_sizes : length t.sizes ≡ n
    of_reads : length t.reads ≡ n
    of_writtens : length t.writtens ≡ n

  add_subband_lem :
      (n idx : ℕ) (subband : SmrbSubbandMonitorData) (t : Totals f)
      → Sized n t
      → suc idx ≤ n
      → f.divide (f.of_int subband.full) (f.of_int subband.num_of_buffers) ≡ some (ratio subband)
      → (t' : Totals f) × (add_subband f (suc idx) subband t ≡ some t')
        × Sized n t'
        × (t'.size ≡ t.size + subband.buffer_size)
        × (t'.read ≡ t.read + subband.total_read)
        × (t'.written ≡ t.written + subband.total_written)
        × (t'.utilised ≡ f.plus t.utilised (f.times (ratio subband) (f.of_int subband.buffer_size)))
        × (t'.utilisations ≡ set t.utilisations idx (percentage subband))
        × (t'.sizes ≡ set t.sizes idx subband.buffer_size)
        × (t'.reads ≡ set t.reads idx subband.total_read)
        × (t'.writtens ≡ set t.writtens idx subband.total_written)
  unfolding add_subband utilisation utilised_bytes
  add_subband_lem n idx subband t z h e =
      let q = ratio subband in
      let t' : Totals f = record {
        size = t.size + subband.buffer_size;
        read = t.read + subband.total_read;
        written = t.written + subband.total_written;
        utilised = f.plus t.utilised (f.times q (f.of_int subband.buffer_size));
        utilisations = set t.utilisations idx (f.times q (f.of_int 100));
        sizes = set t.sizes idx subband.buffer_size;
        reads = set t.reads idx subband.total_read;
        writtens = set t.writtens idx subband.total_written;
      } in
      (
        t',
        ground (arith, e),
        record {
          of_utilisations = length-set t.utilisations idx _ ∙ z.of_utilisations;
          of_sizes = length-set t.sizes idx _ ∙ z.of_sizes;
          of_reads = length-set t.reads idx _ ∙ z.of_reads;
          of_writtens = length-set t.writtens idx _ ∙ z.of_writtens;
        },
        refl,
        refl,
        refl,
        refl,
        refl,
        refl,
        refl,
        refl,
      )

  add_subbands_lem :
      (n : ℕ) (items : Items) (t : Totals f)
      → Sized n t
      → HaveRatios n items
      → distinct items ≡ true
      → (t' : Totals f) × (add_subbands f items t ≡ some t')
        × (t'.size ≡ t.size + total (λ d. d.buffer_size) items)
        × (t'.read ≡ t.read + total (λ d. d.total_read) items)
        × (t'.written ≡ t.written + total (λ d. d.total_written) items)
        × (t'.utilised ≡ sum_of_utilised t.utilised items)
        × ((i : ℕ)
            → (get_elem? t'.utilisations i ≡ entry percentage items i (get_elem? t.utilisations i))
              × (get_elem? t'.sizes i ≡ entry (λ d. d.buffer_size) items i (get_elem? t.sizes i))
              × (get_elem? t'.reads i ≡ entry (λ d. d.total_read) items i (get_elem? t.reads i))
              × (get_elem? t'.writtens i
                  ≡ entry (λ d. d.total_written) items i (get_elem? t.writtens i)))
  unfolding add_subbands
  add_subbands_lem n [] t z fit d =
      (t, refl, omega arith, omega arith, omega arith, refl, λ i. (refl, refl, refl, refl))
  add_subbands_lem n ((zero, subband) ∷ items) t z fit d = absurd (omega (arith, fit.0.0))
  add_subbands_lem n ((suc idx, subband) ∷ items) t z fit d =
      let (
        t₁, run, z₁, size₁, read₁, written₁, utilised₁, utilisations₁, sizes₁, reads₁, writtens₁,
      ) =
        add_subband_lem n idx subband t z fit.0.1 fit.0.2 in
      let (t₂, run₂, size₂, read₂, written₂, utilised₂, at) =
        add_subbands_lem n items t₁ z₁ fit.1 (ground arith) in
      (
        t₂,
        rw run run₂,
        omega arith,
        omega arith,
        omega arith,
        utilised₂ ∙ ap (λ b. sum_of_utilised b items) utilised₁,
        λ i.
            let (u, s, r, w) = at i in
            (
              u
                  ∙ rw utilisations₁ (
                      entry-set percentage items t.utilisations idx i subband
                        (omega (arith, z.of_utilisations, fit.0.1)) d),
              s
                  ∙ rw sizes₁ (
                      entry-set (λ d. d.buffer_size) items t.sizes idx i subband
                        (omega (arith, z.of_sizes, fit.0.1)) d),
              r
                  ∙ rw reads₁ (
                      entry-set (λ d. d.total_read) items t.reads idx i subband
                        (omega (arith, z.of_reads, fit.0.1)) d),
              w
                  ∙ rw writtens₁ (
                      entry-set (λ d. d.total_written) items t.writtens idx i subband
                        (omega (arith, z.of_writtens, fit.0.1)) d),
            ),
      )

  overall-some :
      (t : Totals f)
      → (u : f.F) × (overall f t ≡ some u)
        × (t.size ≡ 0 → u ≡ f.of_int 0)
        × (0 < t.size
            → (q : f.F) × (f.divide t.utilised (f.of_int t.size) ≡ some q)
              × (u ≡ f.times q (f.of_int 100)))
  overall-some t = elim (Bool-cases (ltb 0 t.size)) [
    | inl positive ↦
        let (q, e) = divides t.utilised t.size (ground arith) in
        (
          f.times q (f.of_int 100),
          rw (positive, e),
          λ none_there. absurd (ground arith),
          λ there. (q, e, refl),
        )
    | inr empty ↦ (f.of_int 0, rw empty, λ none_there. refl, λ there. absurd (ground arith))
  ]

  Sized-no_totals : (n : ℕ) → Sized n (no_totals f n)
  Sized-no_totals n = record {
    of_utilisations = length-replicate n (f.of_int 0);
    of_sizes = length-replicate n 0;
    of_reads = length-replicate n 0;
    of_writtens = length-replicate n 0;
  }

  -- When the subband ids are different and between 1 and the number of subbands, every ring buffer's
  -- full buffers can be divided by its number of buffers, and a division by a number that is not 0 does
  -- not raise, the monitoring data are made. The sizes and the bytes read and written are the sums over
  -- the subbands. Each list has at place i the number of the subband i + 1, where the utilisation is a
  -- hundred times the ratio of the buffers. The overall utilisation is a hundred times the sum of the
  -- ratios, each times its size, divided by the size of all, and 0 when that is 0.
  pub smrb_monitor_data_lem :
      (items : Items)
      → HaveRatios (length items) items
      → distinct items ≡ true
      → (r : SmrbMonitorData f) × (smrb_monitor_data f items ≡ some r)
        × (r.number_subbands ≡ length items)
        × (r.ring_buffer_size ≡ total (λ d. d.buffer_size) items)
        × (r.ring_buffer_read ≡ total (λ d. d.total_read) items)
        × (r.ring_buffer_written ≡ total (λ d. d.total_written) items)
        × (r.ring_buffer_size ≡ 0 → r.ring_buffer_utilisation ≡ f.of_int 0)
        × (0 < r.ring_buffer_size
            → (q : f.F) × (f.divide
                  (sum_of_utilised (f.of_int 0) items)
                  (f.of_int r.ring_buffer_size)
                ≡ some q)
              × (r.ring_buffer_utilisation ≡ f.times q (f.of_int 100)))
        × ((i : ℕ) (subband : SmrbSubbandMonitorData)
            → lookup (suc i) items ≡ some subband
            → (get_elem? r.subband_ring_buffer_utilisations i ≡ some (percentage subband))
              × (get_elem? r.subband_ring_buffer_sizes i ≡ some subband.buffer_size)
              × (get_elem? r.subband_ring_buffer_read i ≡ some subband.total_read)
              × (get_elem? r.subband_ring_buffer_written i ≡ some subband.total_written))
  unfolding smrb_monitor_data
  smrb_monitor_data_lem [] fit d = (
    default_data f,
    refl,
    refl,
    refl,
    refl,
    refl,
    λ none_there. refl,
    λ there. absurd (ground arith),
    λ i subband e. cc,
  )
  smrb_monitor_data_lem (item ∷ items) fit d =
      let n = length (item ∷ items) in
      let (t, run, size, read, written, utilised, at) =
        add_subbands_lem n (item ∷ items) (no_totals f n) (Sized-no_totals n) fit d in
      let (u, e, empty, full) = overall-some t in
      (
        made_of f t u n,
        rw (run, e),
        refl,
        omega arith,
        omega arith,
        omega arith,
        empty,
        λ there.
            let (q, divided, hundred) = full there in
            (q, ap (λ b. f.divide b (f.of_int t.size)) (sym utilised) ∙ divided, hundred),
        λ i subband there.
            let (us, s, r, w) = at i in
            (
              us ∙ entry-there percentage (item ∷ items) i _ there,
              s ∙ entry-there (λ d. d.buffer_size) (item ∷ items) i _ there,
              r ∙ entry-there (λ d. d.total_read) (item ∷ items) i _ there,
              w ∙ entry-there (λ d. d.total_written) (item ∷ items) i _ there,
            ),
      )
