-- ===== src/Monitoring/Smrb.antt =====
-- The monitoring data of the ring buffers (src/ska_pst_lmc/smrb/smrb_model.py). Floating point numbers
-- are an interface.
use ska_pst_lmc.Prelude.{
  ℕ, ◌+◌, Option, some, ◌>>=◌, List, [], ◌∷◌, length, replicate, ltb, if◌then◌else◌,
}
use ska_pst_lmc.Floats.{Floats}
use ska_pst_lmc.Monitoring.Subbands.{set_item}

pub record SmrbSubbandMonitorData : Type 0 where
  pub buffer_size : ℕ
  pub num_of_buffers : ℕ
  pub total_written : ℕ
  pub total_read : ℕ
  pub full : ℕ

module _ (f : Floats) where
  pub record SmrbMonitorData : Type 0 where
    pub ring_buffer_utilisation : f.F
    pub ring_buffer_size : ℕ
    pub ring_buffer_read : ℕ
    pub ring_buffer_written : ℕ
    pub number_subbands : ℕ
    pub subband_ring_buffer_utilisations : List f.F
    pub subband_ring_buffer_sizes : List ℕ
    pub subband_ring_buffer_read : List ℕ
    pub subband_ring_buffer_written : List ℕ

  abbrev full_ratio : SmrbSubbandMonitorData → Option f.F
  full_ratio d = f.divide (f.of_int d.full) (f.of_int d.num_of_buffers)

  unfoldable pub utilisation : SmrbSubbandMonitorData → Option f.F
  utilisation d = full_ratio d >>= λ r. some (f.times r (f.of_int 100))

  unfoldable pub utilised_bytes : SmrbSubbandMonitorData → Option f.F
  utilised_bytes d = full_ratio d >>= λ r. some (f.times r (f.of_int d.buffer_size))

module _ (f : Floats) where
  -- The variables of the loop in `monitor_data`.
  pub record Totals : Type 0 where
    pub size : ℕ
    pub read : ℕ
    pub written : ℕ
    pub utilised : f.F
    pub utilisations : List f.F
    pub sizes : List ℕ
    pub reads : List ℕ
    pub writtens : List ℕ

  unfoldable pub add_subband : ℕ → SmrbSubbandMonitorData → Totals → Option Totals
  unfolding utilisation utilised_bytes
  add_subband subband_id subband t = utilised_bytes f subband >>= λ bytes.
      utilisation f subband >>= λ u. set_item t.utilisations subband_id u >>= λ us.
      set_item t.sizes subband_id subband.buffer_size >>= λ ss.
      set_item t.reads subband_id subband.total_read >>= λ rs.
      set_item t.writtens subband_id subband.total_written >>= λ ws. some (record {
        size = t.size + subband.buffer_size;
        read = t.read + subband.total_read;
        written = t.written + subband.total_written;
        utilised = f.plus t.utilised bytes;
        utilisations = us;
        sizes = ss;
        reads = rs;
        writtens = ws;
      })

  unfoldable pub add_subbands : List (ℕ × SmrbSubbandMonitorData) → Totals → Option Totals
  add_subbands [] t = some t
  add_subbands ((subband_id, subband) ∷ items) t =
      add_subband subband_id subband t >>= add_subbands items

  abbrev pub no_totals : ℕ → Totals
  no_totals n = record {
    size = 0;
    read = 0;
    written = 0;
    utilised = f.of_int 0;
    utilisations = replicate n (f.of_int 0);
    sizes = replicate n 0;
    reads = replicate n 0;
    writtens = replicate n 0;
  }

  abbrev pub overall : Totals → Option f.F
  overall t =
      if ltb 0 t.size
      then (f.divide t.utilised (f.of_int t.size) >>= λ r. some (f.times r (f.of_int 100)))
      else some (f.of_int 0)

  abbrev pub default_data : SmrbMonitorData f
  default_data = record {
    ring_buffer_utilisation = f.of_int 0;
    ring_buffer_size = 0;
    ring_buffer_read = 0;
    ring_buffer_written = 0;
    number_subbands = 0;
    subband_ring_buffer_utilisations = [];
    subband_ring_buffer_sizes = [];
    subband_ring_buffer_read = [];
    subband_ring_buffer_written = [];
  }

  abbrev pub made_of : Totals → f.F → ℕ → SmrbMonitorData f
  made_of t u n = record {
    ring_buffer_utilisation = u;
    ring_buffer_size = t.size;
    ring_buffer_read = t.read;
    ring_buffer_written = t.written;
    number_subbands = n;
    subband_ring_buffer_utilisations = t.utilisations;
    subband_ring_buffer_sizes = t.sizes;
    subband_ring_buffer_read = t.reads;
    subband_ring_buffer_written = t.writtens;
  }

  unfoldable pub smrb_monitor_data : List (ℕ × SmrbSubbandMonitorData) → Option (SmrbMonitorData f)
  unfolding add_subbands
  smrb_monitor_data [] = some default_data
  smrb_monitor_data (item ∷ items) =
      add_subbands (item ∷ items) (no_totals (length (item ∷ items))) >>= λ t.
      overall t >>= λ u. some (made_of t u (length (item ∷ items)))
