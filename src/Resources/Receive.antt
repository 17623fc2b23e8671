-- ===== src/Resources/Receive.antt =====
-- What RECV, DSP and STAT are configured with (src/ska_pst_lmc/receive/receive_util.py,
-- dsp/dsp_util.py, stat/stat_util.py). Values that are passed on as they are have a type `J` of the
-- caller's. `show` is `str` of such a value, and `truncate` is `int`.
use ska_pst_lmc.Prelude.{ℕ, String, ◌*◌, ◌/◌, Option, none, some, List, length, map, get_elem?}
use ska_pst_lmc.Effects.{Result, returned, raised}
use ska_pst_lmc.Floats.{Floats}
use ska_pst_lmc.Resources.{
  Exception, key_error, runtime_error, zero_division_error, index_error, item, ◌>>=◌,
}
use ska_pst_lmc.Resources.Text.{Text, codes, join, decimal}
use ska_pst_lmc.Resources.Band.{get_frequency_band_config}
use ska_pst_lmc.Resources.Keys.{generate_data_key, generate_weights_key}

pub record Coordinates (J : Type 0) : Type 0 where
  pub equinox : Option J
  pub ra : Option J
  pub dec : Option J

module _ (f : Floats) (J : Type 0) where
  -- The keys of a request that RECV, DSP and STAT read.
  pub record RequestParams : Type 0 where
    pub frequency_band : Option String
    pub num_frequency_channels : Option ℕ
    pub num_of_polarizations : Option ℕ
    pub bits_per_sample : Option ℕ
    pub oversampling_ratio : Option (List ℕ)
    pub total_bandwidth : Option f.F
    pub centre_frequency : Option f.F
    pub udp_nsamp : Option J
    pub wt_nsamp : Option J
    pub udp_nchan : Option J
    pub receiver_id : Option J
    pub feed_polarization : Option J
    pub feed_handedness : Option J
    pub feed_angle : Option J
    pub feed_tracking_mode : Option J
    pub feed_position_angle : Option J
    pub receptors : Option (List Text)
    pub receptor_weights : Option (List J)
    pub timing_beam_id : Option J
    pub activation_time : Option J
    pub observer_id : Option J
    pub project_id : Option J
    pub pointing_id : Option J
    pub subarray_id : Option J
    pub source : Option J
    pub itrf : Option (List J)
    pub coordinates : Option (Coordinates J)
    pub max_scan_length : Option f.F
    pub eb_id : Option J
    pub test_vector_id : Option J
    pub stat_processing_delay_ms : Option ℕ
    pub stat_req_time_bins : Option ℕ
    pub stat_req_freq_bins : Option ℕ
    pub stat_num_rebin : Option ℕ

  pub record PacketResources : Type 0 where
    pub nchan : ℕ
    pub bandwidth : f.F
    pub npol : ℕ
    pub nbits : ℕ
    pub ndim : ℕ
    pub tsamp : f.F
    pub ovrsamp : Text
    pub udp_format : String
    pub bytes_per_second : f.F

  pub record CommonResources : Type 0 where
    pub nsubband : ℕ
    pub udp_nsamp : J
    pub wt_nsamp : J
    pub udp_nchan : J
    pub frequency : f.F
    pub frontend : J
    pub fd_poln : J
    pub fd_hand : J
    pub fd_sang : J
    pub fd_mode : J
    pub fa_req : J
    pub nant : ℕ
    pub antennas : Text
    pub ant_weights : Text
    pub beam_id : Text
    pub packet : PacketResources

  pub record SubbandResources : Type 0 where
    pub data_key : Text
    pub weights_key : Text
    pub bandwidth : f.F
    pub nchan : ℕ
    pub frequency : f.F
    pub start_channel : ℕ
    pub end_channel : ℕ
    pub start_channel_out : ℕ
    pub end_channel_out : ℕ
    pub nchan_out : ℕ
    pub bandwidth_out : f.F
    pub frequency_out : f.F
    pub data_host : Text
    pub data_port : ℕ

  -- `a / b`
  abbrev pub divide : f.F → f.F → Result Exception f.F
  divide a b = elim (f.divide a b) [ none ↦ raised zero_division_error | some q ↦ returned q ]

  -- `items[i]`
  abbrev pub at : List ℕ → ℕ → Result Exception ℕ
  at items i = elim (get_elem? items i) [ none ↦ raised index_error | some x ↦ returned x ]

  abbrev pub mega_hertz : f.F
  mega_hertz = f.of_int 1000000

  abbrev pub num_dimensions : ℕ
  num_dimensions = 2

  unfoldable pub get_udp_format : Option String → Result Exception String
  get_udp_format frequency_band =
      get_frequency_band_config frequency_band >>= λ config. returned config.udp_format

  unfoldable pub calculate_receive_packet_resources :
      RequestParams → Result Exception PacketResources
  calculate_receive_packet_resources r = do
    udp_format ← get_udp_format r.frequency_band
    nchan ← item "num_frequency_channels" r.num_frequency_channels
    npol ← item "num_of_polarizations" r.num_of_polarizations
    bits ← item "bits_per_sample" r.bits_per_sample
    oversampling_ratio ← item "oversampling_ratio" r.oversampling_ratio
    total ← item "total_bandwidth" r.total_bandwidth
    bandwidth_mhz ← divide total mega_hertz
    per_channel ← divide bandwidth_mhz (f.of_int nchan)
    numerator ← at oversampling_ratio 0
    denominator ← at oversampling_ratio 1
    rate ← divide (f.times per_channel (f.of_int numerator)) (f.of_int denominator)
    tsamp ← divide (f.of_int 1) rate
    bytes ← divide (f.of_int (nchan * npol * (bits / num_dimensions) * num_dimensions)) (f.of_int 8)
    bytes_per_second ← divide (f.times bytes (f.of_int 1000000)) tsamp
    returned (record {
      nchan = nchan;
      bandwidth = bandwidth_mhz;
      npol = npol;
      nbits = bits / num_dimensions;
      ndim = num_dimensions;
      tsamp = tsamp;
      ovrsamp = join (codes "/") (map decimal oversampling_ratio);
      udp_format = udp_format;
      bytes_per_second = bytes_per_second;
    })

  module _ (show : J → Text) where
    unfoldable pub calculate_receive_common_resources :
        ℕ → RequestParams → Result Exception CommonResources
    calculate_receive_common_resources beam_id r = do
      packet ← calculate_receive_packet_resources r
      udp_nsamp ← item "udp_nsamp" r.udp_nsamp
      wt_nsamp ← item "wt_nsamp" r.wt_nsamp
      udp_nchan ← item "udp_nchan" r.udp_nchan
      centre ← item "centre_frequency" r.centre_frequency
      frequency ← divide centre mega_hertz
      frontend ← item "receiver_id" r.receiver_id
      fd_poln ← item "feed_polarization" r.feed_polarization
      fd_hand ← item "feed_handedness" r.feed_handedness
      fd_sang ← item "feed_angle" r.feed_angle
      fd_mode ← item "feed_tracking_mode" r.feed_tracking_mode
      fa_req ← item "feed_position_angle" r.feed_position_angle
      receptors ← item "receptors" r.receptors
      weights ← item "receptor_weights" r.receptor_weights
      returned (record {
        nsubband = 1;
        udp_nsamp = udp_nsamp;
        wt_nsamp = wt_nsamp;
        udp_nchan = udp_nchan;
        frequency = frequency;
        frontend = frontend;
        fd_poln = fd_poln;
        fd_hand = fd_hand;
        fd_sang = fd_sang;
        fd_mode = fd_mode;
        fa_req = fa_req;
        nant = length receptors;
        antennas = join (codes ",") receptors;
        ant_weights = join (codes ",") (map show weights);
        beam_id = elim r.timing_beam_id [ none ↦ decimal beam_id | some id ↦ show id ];
        packet = packet;
      })

    -- The `try` block of `calculate_receive_subband_resources`.
    unfoldable pub subband_resources :
        ℕ → RequestParams → Text → List ℕ → Result Exception (CommonResources × SubbandResources)
    subband_resources beam_id r data_host subband_udp_ports = do
      nchan ← item "num_frequency_channels" r.num_frequency_channels
      bandwidth ← item "total_bandwidth" r.total_bandwidth
      common ← calculate_receive_common_resources beam_id r
      bandwidth_mhz ← divide bandwidth mega_hertz
      centre ← item "centre_frequency" r.centre_frequency
      frequency ← divide centre mega_hertz
      data_port ← at subband_udp_ports 0
      returned (
        common,
        record {
          data_key = generate_data_key beam_id 1;
          weights_key = generate_weights_key beam_id 1;
          bandwidth = bandwidth_mhz;
          nchan = nchan;
          frequency = frequency;
          start_channel = 0;
          end_channel = nchan;
          start_channel_out = 0;
          end_channel_out = nchan;
          nchan_out = nchan;
          bandwidth_out = bandwidth_mhz;
          frequency_out = frequency;
          data_host = data_host;
          data_port = data_port;
        },
      )

    -- `except KeyError as e`; the message of the error is its key here.
    abbrev pub except_key_error : {A : Type 0} → Result Exception A → Result Exception A
    except_key_error (returned v) = returned v
    except_key_error (raised (key_error key)) = raised (runtime_error key)
    except_key_error (raised (runtime_error m)) = raised (runtime_error m)
    except_key_error (raised zero_division_error) = raised zero_division_error
    except_key_error (raised index_error) = raised index_error

    unfoldable pub calculate_receive_subband_resources :
        ℕ → RequestParams → Text → List ℕ → Result Exception (CommonResources × SubbandResources)
    calculate_receive_subband_resources beam_id r data_host ports =
        except_key_error (subband_resources beam_id r data_host ports)
