-- ===== src/Resources/Requests.antt =====
-- The scan requests of RECV, DSP and STAT, and the subband resources of DSP and STAT
-- (src/ska_pst_lmc/receive/receive_util.py, dsp/dsp_util.py, stat/stat_util.py).
use ska_pst_lmc.Prelude.{ℕ, Option, map}
use ska_pst_lmc.Effects.{Result, returned}
use ska_pst_lmc.Floats.{Floats}
use ska_pst_lmc.Resources.{Exception, item, get_or, ◌>>=◌}
use ska_pst_lmc.Resources.Text.{Text, codes, join}
use ska_pst_lmc.Resources.Keys.{generate_data_key, generate_weights_key}
use ska_pst_lmc.Resources.Receive.{RequestParams, calculate_receive_packet_resources}

pub record SubbandKeys : Type 0 where
  pub data_key : Text
  pub weights_key : Text

unfoldable pub calculate_dsp_subband_resources : ℕ → SubbandKeys
calculate_dsp_subband_resources beam_id = record {
  data_key = generate_data_key beam_id 1;
  weights_key = generate_weights_key beam_id 1;
}

unfoldable pub calculate_stat_subband_resources : ℕ → SubbandKeys
calculate_stat_subband_resources beam_id = record {
  data_key = generate_data_key beam_id 1;
  weights_key = generate_weights_key beam_id 1;
}

module _ (f : Floats) (J : Type 0) where
  pub record RecvScanRequest : Type 0 where
    pub activation_time : J
    pub observer : J
    pub projid : J
    pub pnt_id : J
    pub subarray_id : Text
    pub source : J
    pub itrf : Text
    pub coord_md : Text
    pub equinox : Text
    pub stt_crd1 : J
    pub stt_crd2 : J
    pub trk_mode : Text
    pub scanlen_max : ℕ
    pub execution_block_id : J
    pub test_vector : Option J

  pub record DspScanRequest : Type 0 where
    pub bytes_per_second : f.F
    pub scanlen_max : f.F
    pub execution_block_id : J

  pub record StatScanRequest : Type 0 where
    pub execution_block_id : J
    pub processing_delay_ms : ℕ
    pub req_time_bins : ℕ
    pub req_freq_bins : ℕ
    pub num_rebin : ℕ

  -- `default_equinox` is 2000.0.
  module _ (show : J → Text) (truncate : f.F → ℕ) (default_equinox : J) where
    unfoldable pub generate_recv_scan_request : RequestParams f J → Result Exception RecvScanRequest
    generate_recv_scan_request r = do
      activation_time ← item "activation_time" r.activation_time
      observer ← item "observer_id" r.observer_id
      projid ← item "project_id" r.project_id
      pnt_id ← item "pointing_id" r.pointing_id
      subarray_id ← item "subarray_id" r.subarray_id
      source ← item "source" r.source
      itrf ← item "itrf" r.itrf
      coordinates ← item "coordinates" r.coordinates
      stt_crd1 ← item "ra" coordinates.ra
      stt_crd2 ← item "dec" coordinates.dec
      max_scan_length ← item "max_scan_length" r.max_scan_length
      execution_block_id ← item "eb_id" r.eb_id
      returned (record {
        activation_time = activation_time;
        observer = observer;
        projid = projid;
        pnt_id = pnt_id;
        subarray_id = show subarray_id;
        source = source;
        itrf = join (codes ",") (map show itrf);
        coord_md = codes "J2000";
        equinox = show (get_or coordinates.equinox default_equinox);
        stt_crd1 = stt_crd1;
        stt_crd2 = stt_crd2;
        trk_mode = codes "TRACK";
        scanlen_max = truncate max_scan_length;
        execution_block_id = execution_block_id;
        test_vector = r.test_vector_id;
      })

  unfoldable pub generate_dsp_scan_request : RequestParams f J → Result Exception DspScanRequest
  generate_dsp_scan_request r = do
    packet ← calculate_receive_packet_resources f J r
    execution_block_id ← item "eb_id" r.eb_id
    returned (record {
      bytes_per_second = packet.bytes_per_second;
      scanlen_max = get_or r.max_scan_length (f.of_int 0);
      execution_block_id = execution_block_id;
    })

  unfoldable pub generate_stat_scan_request : RequestParams f J → Result Exception StatScanRequest
  generate_stat_scan_request r = do
    execution_block_id ← item "eb_id" r.eb_id
    returned (record {
      execution_block_id = execution_block_id;
      processing_delay_ms = get_or r.stat_processing_delay_ms 5000;
      req_time_bins = get_or r.stat_req_time_bins 1024;
      req_freq_bins = get_or r.stat_req_freq_bins 1024;
      num_rebin = get_or r.stat_num_rebin 256;
    })
