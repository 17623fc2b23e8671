-- ===== src/Resources/Band.antt =====
-- The configuration of each frequency band (src/ska_pst_lmc/band/band_config.py).
use ska_pst_lmc.Prelude.{
  ℕ, String, Option, none, some, List, [], ◌∷◌, lookup, string_key, ◌==◌, if◌then◌else◌,
}
use ska_pst_lmc.Effects.{Result, returned}
use ska_pst_lmc.Resources.{Exception, item}

pub record BandConfig : Type 0 where
  pub udp_format : String
  pub packet_nchan : ℕ
  pub packet_nsamp : ℕ
  pub packets_per_buffer : ℕ
  pub num_of_buffers : ℕ

abbrev pub low_band_config : BandConfig
low_band_config = record {
  udp_format = "LowPST";
  packet_nchan = 24;
  packet_nsamp = 32;
  packets_per_buffer = 16;
  num_of_buffers = 64;
}

-- `COMMON_MID_CONFIG` with the rest of a band.
abbrev pub mid_config : String → ℕ → ℕ → BandConfig
mid_config format packets buffers = record {
  udp_format = format;
  packet_nchan = 185;
  packet_nsamp = 4;
  packets_per_buffer = packets;
  num_of_buffers = buffers;
}

abbrev pub mid_band_config : List (String × BandConfig)
mid_band_config =
    ("1", mid_config "MidPSTBand1" 1024 128)
    ∷ ("2", mid_config "MidPSTBand2" 1024 128)
    ∷ ("3", mid_config "MidPSTBand3" 512 256)
    ∷ ("4", mid_config "MidPSTBand4" 512 256)
    ∷ ("5a", mid_config "MidPSTBand5" 512 256)
    ∷ ("5b", mid_config "MidPSTBand5" 512 256)
    ∷ []

unfoldable pub get_frequency_band_config : Option String → Result Exception BandConfig
get_frequency_band_config none = returned low_band_config
get_frequency_band_config (some band) =
    if band == "low" then returned low_band_config else item band (lookup band mid_band_config)
