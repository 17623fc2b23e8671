-- ===== src/Resources/Examples.antt =====
-- The resources of beams 1 and 2 of the Low telescope.
use ska_pst_lmc.Prelude.{
  ℕ, ◌+◌, ◌*◌, ◌/◌, ◌<◌, ◌≤◌, ◌≡◌, ◌≢◌, refl, nat_beq, if◌then◌else◌, none, some, [], ◌∷◌, length,
  arith,
}
use ska_pst_lmc.Effects.{returned}
use ska_pst_lmc.Floats.{Floats}
use ska_pst_lmc.Resources.Text.{Text, join, codes, hex, decimal, digits, digit, read_hex}
use ska_pst_lmc.Resources.Band.{low_band_config, get_frequency_band_config}
use ska_pst_lmc.Resources.Keys.{generate_data_key, generate_weights_key, read_key, keys_round_trip}
use ska_pst_lmc.Resources.Smrb.{
  SmrbResources, calculate_smrb_subband_resources, smrb_resources, size_of_float32_in_bytes,
}
use ska_pst_lmc.Resources.Buffers.{request, buffers_hold_packets, data_buffer_bounds}
use ska_pst_lmc.Resources.Receive.{
  RequestParams, CommonResources, SubbandResources, get_udp_format,
  calculate_receive_packet_resources, calculate_receive_common_resources, subband_resources,
  calculate_receive_subband_resources,
}
use ska_pst_lmc.Resources.Requests.{
  calculate_dsp_subband_resources, calculate_stat_subband_resources,
}
use ska_pst_lmc.Resources.Agreement.{ring_buffers_agree}

beam_171_keys : (generate_data_key 171 1 ≡ codes "ab10") × (generate_weights_key 1 1 ≡ codes "0112")
unfolding generate_data_key generate_weights_key hex decimal digits digit
beam_171_keys = (refl, refl)

keys_round_trip_example :
    (read_key (generate_data_key 171 1) ≡ (171, 1))
    × (read_key (generate_weights_key 171 1) ≡ (171, 1))
    × (read_hex 0 (generate_weights_key 171 1) ≡ read_hex 0 (generate_data_key 171 1) + 2)
    × (171 < 256
        → (length (generate_data_key 171 1) ≡ 4) × (length (generate_weights_key 171 1) ≡ 4))
keys_round_trip_example = keys_round_trip 171 1 (omega arith)

low_config : get_frequency_band_config none ≡ returned low_band_config
unfolding get_frequency_band_config
low_config = refl

-- 18 packets of 24 channels, of 2 polarisations and 32 bits.
buffers_hold_packets_example :
    (s : SmrbResources) × (calculate_smrb_subband_resources 1 (request none 432 2 32 32 32)
      ≡ returned s)
    × (s.db_bufsz ≡ 16 * 18 * (192 * 32))
    × (s.wb_bufsz ≡ 16 * 18 * (size_of_float32_in_bytes + 2 * 24))
    × (s.db_nbufs ≡ s.wb_nbufs)
buffers_hold_packets_example =
    buffers_hold_packets 1 none low_band_config 18 2 32 192 32 low_config (omega arith) refl
      (omega arith)

abbrev odd_resources : SmrbResources
odd_resources = smrb_resources 1 low_band_config 5 1 3 7 7

odd_made : calculate_smrb_subband_resources 1 (request none 5 1 3 7 1) ≡ returned odd_resources
unfolding calculate_smrb_subband_resources get_frequency_band_config
odd_made = refl

data_buffer_bounds_example :
    (odd_resources.db_bufsz * 8 ≤ 16 * (5 * 1 * 3 * 7))
    × (16 * (5 * 1 * 3 * 7) ≤ odd_resources.db_bufsz * 8 + 16 * (7 * 7))
data_buffer_bounds_example =
    data_buffer_bounds 1 5 1 3 7 1 none low_band_config odd_resources low_config odd_made

-- Numbers of which only the whole part of a quotient is kept.
abbrev whole : Floats
whole = record {
  F = ℕ;
  of_int = λ n. n;
  plus = λ a b. a + b;
  times = λ a b. a * b;
  divide = λ a b. if nat_beq b 0 then none else some (a / b);
}

abbrev params : RequestParams whole Text
params = record {
  frequency_band = none;
  num_frequency_channels = some 1;
  num_of_polarizations = some 2;
  bits_per_sample = some 32;
  oversampling_ratio = some (1 ∷ 1 ∷ []);
  total_bandwidth = some 1000000;
  centre_frequency = some 100000000;
  udp_nsamp = some (codes "32");
  wt_nsamp = some (codes "32");
  udp_nchan = some (codes "24");
  receiver_id = some (codes "LFAA");
  feed_polarization = some (codes "LIN");
  feed_handedness = some (codes "1");
  feed_angle = some (codes "0");
  feed_tracking_mode = some (codes "FA");
  feed_position_angle = some (codes "0");
  receptors = some (codes "SKA001" ∷ codes "SKA036" ∷ []);
  receptor_weights = some (codes "0.4" ∷ codes "0.6" ∷ []);
  timing_beam_id = none;
  activation_time = none;
  observer_id = none;
  project_id = none;
  pointing_id = none;
  subarray_id = none;
  source = none;
  itrf = none;
  coordinates = none;
  max_scan_length = none;
  eb_id = none;
  test_vector_id = none;
  stat_processing_delay_ms = none;
  stat_req_time_bins = none;
  stat_req_freq_bins = none;
  stat_num_rebin = none;
}

abbrev common : CommonResources whole Text
common = record {
  nsubband = 1;
  udp_nsamp = codes "32";
  wt_nsamp = codes "32";
  udp_nchan = codes "24";
  frequency = 100;
  frontend = codes "LFAA";
  fd_poln = codes "LIN";
  fd_hand = codes "1";
  fd_sang = codes "0";
  fd_mode = codes "FA";
  fa_req = codes "0";
  nant = 2;
  antennas = codes "SKA001,SKA036";
  ant_weights = codes "0.4,0.6";
  beam_id = codes "1";
  packet = record {
    nchan = 1;
    bandwidth = 1;
    npol = 2;
    nbits = 16;
    ndim = 2;
    tsamp = 1;
    ovrsamp = codes "1/1";
    udp_format = "LowPST";
    bytes_per_second = 8000000;
  };
}

abbrev subband : SubbandResources whole Text
subband = record {
  data_key = generate_data_key 1 1;
  weights_key = generate_weights_key 1 1;
  bandwidth = 1;
  nchan = 1;
  frequency = 100;
  start_channel = 0;
  end_channel = 1;
  start_channel_out = 0;
  end_channel_out = 1;
  nchan_out = 1;
  bandwidth_out = 1;
  frequency_out = 100;
  data_host = codes "10.0.0.1";
  data_port = 32080;
}

receive_made :
    calculate_receive_subband_resources whole Text (λ t. t) 1 params (codes "10.0.0.1") (32080 ∷ [])
    ≡ returned (common, subband)
unfolding calculate_receive_subband_resources subband_resources calculate_receive_common_resources
    calculate_receive_packet_resources get_udp_format get_frequency_band_config join decimal digits
    digit
receive_made = refl

abbrev smrb_of : ℕ → SmrbResources
smrb_of beam_id = smrb_resources beam_id low_band_config 432 2 32 32 1

smrb_made :
    (beam_id : ℕ)
    → calculate_smrb_subband_resources beam_id (request none 432 2 32 32 32)
      ≡ returned (smrb_of beam_id)
unfolding calculate_smrb_subband_resources get_frequency_band_config
smrb_made beam_id = refl

ring_buffers_agree_example :
    (subband.data_key ≡ (smrb_of 1).data_key)
    × (subband.weights_key ≡ (smrb_of 1).weights_key)
    × ((calculate_dsp_subband_resources 1).data_key ≡ (smrb_of 1).data_key)
    × ((calculate_dsp_subband_resources 1).weights_key ≡ (smrb_of 1).weights_key)
    × ((calculate_stat_subband_resources 1).data_key ≡ (smrb_of 1).data_key)
    × ((calculate_stat_subband_resources 1).weights_key ≡ (smrb_of 1).weights_key)
    × ((smrb_of 1).data_key ≢ (smrb_of 1).weights_key)
    × ((smrb_of 1).data_key ≢ (smrb_of 2).data_key)
    × ((smrb_of 1).data_key ≢ (smrb_of 2).weights_key)
    × ((smrb_of 1).weights_key ≢ (smrb_of 2).data_key)
    × ((smrb_of 1).weights_key ≢ (smrb_of 2).weights_key)
ring_buffers_agree_example =
    ring_buffers_agree whole Text (λ t. t) 1 (request none 432 2 32 32 32) (smrb_of 1) params
      (codes "10.0.0.1") (32080 ∷ []) common subband 2 (request none 432 2 32 32 32) (smrb_of 2)
      (smrb_made 1) receive_made (smrb_made 2) (omega arith)

abbrev no_receptors : RequestParams whole Text
no_receptors = record params { receptors = none }
