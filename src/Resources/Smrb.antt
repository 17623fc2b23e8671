-- ===== src/Resources/Smrb.antt =====
-- The sizes of the ring buffers (src/ska_pst_lmc/smrb/smrb_util.py, `calculate_smrb_subband_resources`).
-- Its result has the subband 1 alone, which is the record here.
use ska_pst_lmc.Prelude.{ℕ, String, ◌+◌, ◌*◌, ◌/◌, Option, nat_beq, if◌then◌else◌}
use ska_pst_lmc.Effects.{Result, returned, raised}
use ska_pst_lmc.Resources.{Exception, zero_division_error, item, ◌>>=◌}
use ska_pst_lmc.Resources.Text.{Text}
use ska_pst_lmc.Resources.Band.{BandConfig, get_frequency_band_config}
use ska_pst_lmc.Resources.Keys.{generate_data_key, generate_weights_key}

-- The keys of the request that SMRB reads.
pub record SmrbRequest : Type 0 where
  pub frequency_band : Option String
  pub num_frequency_channels : Option ℕ
  pub num_of_polarizations : Option ℕ
  pub bits_per_sample : Option ℕ
  pub udp_nsamp : Option ℕ
  pub wt_nsamp : Option ℕ

pub record SmrbResources : Type 0 where
  pub data_key : Text
  pub weights_key : Text
  pub hb_nbufs : ℕ
  pub hb_bufsz : ℕ
  pub db_nbufs : ℕ
  pub db_bufsz : ℕ
  pub wb_nbufs : ℕ
  pub wb_bufsz : ℕ

abbrev pub size_of_float32_in_bytes : ℕ
size_of_float32_in_bytes = 4

abbrev pub bits_per_byte : ℕ
bits_per_byte = 8

abbrev pub weights_nbits : ℕ
weights_nbits = 16

-- `a // b`
abbrev pub floor_divide : ℕ → ℕ → Result Exception ℕ
floor_divide a b = if nat_beq b 0 then raised zero_division_error else returned (a / b)

unfoldable pub data_buffer_resolution : ℕ → ℕ → ℕ → ℕ → ℕ
data_buffer_resolution obsnchan obsnpol nbits udp_nsamp =
    obsnchan * obsnpol * nbits / bits_per_byte * udp_nsamp

-- `packet_nchan` is not 0 in any band.
unfoldable pub weights_buffer_resolution : ℕ → ℕ → ℕ → ℕ
weights_buffer_resolution obsnchan packet_nchan wt_nweight =
    obsnchan / packet_nchan * size_of_float32_in_bytes
    + obsnchan * weights_nbits / bits_per_byte * wt_nweight

-- The dictionary of the subband.
abbrev pub smrb_resources : ℕ → BandConfig → ℕ → ℕ → ℕ → ℕ → ℕ → SmrbResources
smrb_resources beam_id config obsnchan obsnpol nbits udp_nsamp wt_nweight = record {
  data_key = generate_data_key beam_id 1;
  weights_key = generate_weights_key beam_id 1;
  hb_nbufs = 8;
  hb_bufsz = 16384;
  db_nbufs = config.num_of_buffers;
  db_bufsz = config.packets_per_buffer * data_buffer_resolution obsnchan obsnpol nbits udp_nsamp;
  wb_nbufs = config.num_of_buffers;
  wb_bufsz =
      config.packets_per_buffer * weights_buffer_resolution obsnchan config.packet_nchan wt_nweight;
}

unfoldable pub calculate_smrb_subband_resources : ℕ → SmrbRequest → Result Exception SmrbResources
calculate_smrb_subband_resources beam_id request = do
  config ← get_frequency_band_config request.frequency_band
  obsnchan ← item "num_frequency_channels" request.num_frequency_channels
  obsnpol ← item "num_of_polarizations" request.num_of_polarizations
  nbits ← item "bits_per_sample" request.bits_per_sample
  udp_nsamp ← item "udp_nsamp" request.udp_nsamp
  wt_nsamp ← item "wt_nsamp" request.wt_nsamp
  wt_nweight ← floor_divide udp_nsamp wt_nsamp
  returned (smrb_resources beam_id config obsnchan obsnpol nbits udp_nsamp wt_nweight)
