-- ===== src/Monitoring/DiskExamples.antt =====
-- Monitoring data of a disk with two subbands, and of two subbands of RECV.
use ska_pst_lmc.Prelude.{
  ℕ, suc, ◌+◌, ◌/◌, ◌≡◌, refl, some, List, [], ◌∷◌, get_elem?, lookup, nat_key, arith,
}
use ska_pst_lmc.Monitoring.Examples.{whole}
use ska_pst_lmc.Monitoring.Dsp.{
  max_size, DspDiskSubbandMonitorData, DspDiskMonitorData, DspDiskMonitorDataStore, new_store,
  update_subband, reset, default_data, dsp_monitor_data,
}
use ska_pst_lmc.Monitoring.Disk.{IsLeast, dsp_monitor_data_lem}
use ska_pst_lmc.Monitoring.Receive.{ReceiveData, no_data, receive_monitor_data}
use ska_pst_lmc.Monitoring.ReceiveTotals.{AreTotals, AreKept, receive_monitor_data_lem}

abbrev first_disk : DspDiskSubbandMonitorData whole
first_disk = record {
  disk_capacity = 1000;
  available_disk_space = 400;
  data_recorded = 70;
  data_record_rate = 7;
}

abbrev second_disk : DspDiskSubbandMonitorData whole
second_disk = record {
  disk_capacity = 1000;
  available_disk_space = 390;
  data_recorded = 30;
  data_record_rate = 3;
}

abbrev disks : DspDiskMonitorDataStore (DspDiskSubbandMonitorData whole)
disks = update_subband 1 first_disk (update_subband 2 second_disk new_store)

-- Ten a second and one.
divides_rates : (x : ℕ) → (q : ℕ) × (whole.divide x 11 ≡ some q)
divides_rates x = (x / 11, ground arith)

dsp_monitor_data_lem_example :
    (r : DspDiskMonitorData whole) × (store' : DspDiskMonitorDataStore
      (DspDiskSubbandMonitorData whole))
    × (dsp_monitor_data whole 1 disks ≡ some (r, store'))
    × IsLeast whole 1 (λ d. d.disk_capacity) disks.subband_data max_size r.disk_capacity
    × IsLeast whole 1
        (λ d. d.available_disk_space)
        disks.subband_data
        max_size
        r.available_disk_space
    × (r.data_recorded ≡ 100)
    × (r.data_record_rate ≡ 10)
    × (whole.divide r.available_disk_space (r.data_record_rate + 1)
        ≡ some r.available_recording_time)
    × ((i : ℕ) (s : DspDiskSubbandMonitorData whole)
        → lookup (suc i) disks.subband_data ≡ some s
        → (get_elem? r.subband_data_recorded i ≡ some s.data_recorded)
          × (get_elem? r.subband_data_record_rate i ≡ some s.data_record_rate))
    × (dsp_monitor_data whole 1 (reset store')
        ≡ some (default_data whole 1 r.disk_capacity r.available_disk_space, reset store'))
dsp_monitor_data_lem_example =
    dsp_monitor_data_lem whole 1 (2, second_disk) ((1, first_disk) ∷ []) disks refl
      ((omega arith, omega arith), ((omega arith, omega arith), tt)) refl divides_rates

abbrev subbands : List (ℕ × ReceiveData whole)
subbands =
    (1, record (no_data whole) { data_received = 40; checksum_failure_packets = 2 })
    ∷ (2, record (no_data whole) { data_received = 2; data_dropped = 5 })
    ∷ []

receive_monitor_data_lem_example :
    AreTotals whole subbands (no_data whole) (receive_monitor_data whole subbands)
    × AreKept whole (no_data whole) (receive_monitor_data whole subbands)
receive_monitor_data_lem_example = receive_monitor_data_lem whole subbands
