-- ===== src/Monitoring/ReceiveTotals.antt =====
-- What is made of the monitoring data of RECV (src/ska_pst_lmc/receive/receive_model.py).
use ska_pst_lmc.Prelude.{ℕ, ◌+◌, ◌≡◌, List, [], ◌∷◌, arith}
use ska_pst_lmc.Floats.{Floats}
use ska_pst_lmc.Monitoring.Subbands.{total}
use ska_pst_lmc.Monitoring.Receive.{
  ReceiveData, no_data, add_receive, add_all, receive_monitor_data,
}

module _ (f : Floats) where
  -- The sum of a rate of each subband, in the order of the subbands.
  abbrev pub total_rate : (ReceiveData f → f.F) → List (ℕ × ReceiveData f) → f.F → f.F
  total_rate of [] sum = sum
  total_rate of ((subband_id, subband) ∷ items) sum = total_rate of items (f.plus sum (of subband))

  -- The numbers that are summed.
  abbrev pub AreTotals : List (ℕ × ReceiveData f) → ReceiveData f → ReceiveData f → Type 0
  AreTotals items start r =
      (r.data_dropped ≡ start.data_dropped + total (λ d. d.data_dropped) items)
      × (r.data_received ≡ start.data_received + total (λ d. d.data_received) items)
      × (r.misordered_packets ≡ start.misordered_packets + total (λ d. d.misordered_packets) items)
      × (r.malformed_packets ≡ start.malformed_packets + total (λ d. d.malformed_packets) items)
      × (r.misdirected_packets
          ≡ start.misdirected_packets + total (λ d. d.misdirected_packets) items)
      × (r.data_drop_rate ≡ total_rate (λ d. d.data_drop_rate) items start.data_drop_rate)
      × (r.data_receive_rate ≡ total_rate (λ d. d.data_receive_rate) items start.data_receive_rate)

  -- The numbers that stay what they are.
  abbrev pub AreKept : ReceiveData f → ReceiveData f → Type 0
  AreKept start r =
      (r.misordered_packet_rate ≡ start.misordered_packet_rate)
      × (r.malformed_packet_rate ≡ start.malformed_packet_rate)
      × (r.misdirected_packet_rate ≡ start.misdirected_packet_rate)
      × (r.checksum_failure_packets ≡ start.checksum_failure_packets)
      × (r.checksum_failure_packet_rate ≡ start.checksum_failure_packet_rate)
      × (r.timestamp_sync_error_packets ≡ start.timestamp_sync_error_packets)
      × (r.timestamp_sync_error_packet_rate ≡ start.timestamp_sync_error_packet_rate)
      × (r.seq_number_sync_error_packets ≡ start.seq_number_sync_error_packets)
      × (r.seq_number_sync_error_packet_rate ≡ start.seq_number_sync_error_packet_rate)

  add_all_lem :
      (items : List (ℕ × ReceiveData f)) (start : ReceiveData f)
      → AreTotals items start (add_all f items start) × AreKept start (add_all f items start)
  unfolding add_receive
  add_all_lem [] start = ground arith
  add_all_lem ((subband_id, subband) ∷ items) start =
      let k = add_all_lem items (add_receive f start subband) in ground arith

  -- The bytes received and dropped and the misordered, malformed and misdirected packets are the sums
  -- over the subbands, and the rates of received and dropped data are added up in their order. All other
  -- numbers are 0, whatever the subbands report.
  pub receive_monitor_data_lem :
      (items : List (ℕ × ReceiveData f))
      → AreTotals items (no_data f) (receive_monitor_data f items)
        × AreKept (no_data f) (receive_monitor_data f items)
  unfolding receive_monitor_data
  receive_monitor_data_lem items = add_all_lem items (no_data f)
