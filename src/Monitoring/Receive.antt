-- ===== src/Monitoring/Receive.antt =====
-- The monitoring data of RECV and of STAT (src/ska_pst_lmc/receive/receive_model.py,
-- src/ska_pst_lmc/stat/stat_model.py). Floating point numbers are an interface.
use ska_pst_lmc.Prelude.{ℕ, ◌+◌, Option, some, List, [], ◌∷◌, lookup, nat_key}
use ska_pst_lmc.Floats.{Floats}

module _ (f : Floats) where
  pub record ReceiveData : Type 0 where
    pub data_received : ℕ
    pub data_receive_rate : f.F
    pub data_dropped : ℕ
    pub data_drop_rate : f.F
    pub misordered_packets : ℕ
    pub misordered_packet_rate : f.F
    pub malformed_packets : ℕ
    pub malformed_packet_rate : f.F
    pub misdirected_packets : ℕ
    pub misdirected_packet_rate : f.F
    pub checksum_failure_packets : ℕ
    pub checksum_failure_packet_rate : f.F
    pub timestamp_sync_error_packets : ℕ
    pub timestamp_sync_error_packet_rate : f.F
    pub seq_number_sync_error_packets : ℕ
    pub seq_number_sync_error_packet_rate : f.F

  -- `ReceiveData()`.
  abbrev pub no_data : ReceiveData
  no_data = record {
    data_received = 0;
    data_receive_rate = f.of_int 0;
    data_dropped = 0;
    data_drop_rate = f.of_int 0;
    misordered_packets = 0;
    misordered_packet_rate = f.of_int 0;
    malformed_packets = 0;
    malformed_packet_rate = f.of_int 0;
    misdirected_packets = 0;
    misdirected_packet_rate = f.of_int 0;
    checksum_failure_packets = 0;
    checksum_failure_packet_rate = f.of_int 0;
    timestamp_sync_error_packets = 0;
    timestamp_sync_error_packet_rate = f.of_int 0;
    seq_number_sync_error_packets = 0;
    seq_number_sync_error_packet_rate = f.of_int 0;
  }

  -- The body of the loop in `ReceiveDataStore.monitor_data`.
  unfoldable pub add_receive : ReceiveData → ReceiveData → ReceiveData
  add_receive total subband = record total {
    data_dropped = total.data_dropped + subband.data_dropped;
    data_drop_rate = f.plus total.data_drop_rate subband.data_drop_rate;
    data_received = total.data_received + subband.data_received;
    data_receive_rate = f.plus total.data_receive_rate subband.data_receive_rate;
    misordered_packets = total.misordered_packets + subband.misordered_packets;
    malformed_packets = total.malformed_packets + subband.malformed_packets;
    misdirected_packets = total.misdirected_packets + subband.misdirected_packets;
  }

  abbrev pub add_all : List (ℕ × ReceiveData) → ReceiveData → ReceiveData
  add_all [] total = total
  add_all ((subband_id, subband) ∷ items) total = add_all items (add_receive total subband)

  unfoldable pub receive_monitor_data : List (ℕ × ReceiveData) → ReceiveData
  receive_monitor_data items = add_all items no_data

-- The numbers of STAT are those of one polarisation and one dimension, with and without the channels
-- that are flagged for RFI: `real_pol_a`, `imag_pol_a`, `real_pol_b` and `imag_pol_b`.
module _ (f : Floats) where
  pub record Statistics : Type 0 where
    pub mean_freq_avg : f.F
    pub variance_freq_avg : f.F
    pub num_clipped_samples : ℕ
    pub mean_freq_avg_rfi_excised : f.F
    pub variance_freq_avg_rfi_excised : f.F
    pub num_clipped_samples_rfi_excised : ℕ

  pub record StatMonitorData : Type 0 where
    pub real_pol_a : Statistics
    pub imag_pol_a : Statistics
    pub real_pol_b : Statistics
    pub imag_pol_b : Statistics

  abbrev pub no_statistics : Statistics
  no_statistics = record {
    mean_freq_avg = f.of_int 0;
    variance_freq_avg = f.of_int 0;
    num_clipped_samples = 0;
    mean_freq_avg_rfi_excised = f.of_int 0;
    variance_freq_avg_rfi_excised = f.of_int 0;
    num_clipped_samples_rfi_excised = 0;
  }

  -- `StatMonitorDataStore.monitor_data`; `none` is a `KeyError`. `SUBBAND_1` is 1.
  unfoldable pub stat_monitor_data : List (ℕ × StatMonitorData) → Option StatMonitorData
  stat_monitor_data [] = some (record {
    real_pol_a = no_statistics;
    imag_pol_a = no_statistics;
    real_pol_b = no_statistics;
    imag_pol_b = no_statistics;
  })
  stat_monitor_data (item ∷ items) = lookup 1 (item ∷ items)
