-- ===== src/Resources/Buffers.antt =====
-- What the ring buffers hold (src/ska_pst_lmc/smrb/smrb_util.py).
use native.Mathlib.Nat.{mul-div_cancel, mul-le-mul_right, mul-le-mul_left, mul_assoc, div_self}
use ska_pst_lmc.Prelude.{
  ℕ, zero, suc, ◌+◌, ◌*◌, ◌/◌, ◌<◌, ◌≤◌, ◌≡◌, refl, sym, ap, ◌∙◌, Option, String, some, arith,
  nat_beq, false,
}
use ska_pst_lmc.Effects.{Result, returned, raised}
use ska_pst_lmc.Resources.{Exception, zero_division_error}
use ska_pst_lmc.Resources.Band.{BandConfig, get_frequency_band_config}
use ska_pst_lmc.Resources.Smrb.{
  SmrbRequest, SmrbResources, smrb_resources, data_buffer_resolution, weights_buffer_resolution,
  calculate_smrb_subband_resources, size_of_float32_in_bytes,
}

-- The bits of a sample of a packet are whole bytes.
data_of_packets :
    (packets packet_nchan npol nbits sample_bytes nsamp : ℕ)
    → packet_nchan * npol * nbits ≡ sample_bytes * 8
    → data_buffer_resolution (packets * packet_nchan) npol nbits nsamp
      ≡ packets * (sample_bytes * nsamp)
unfolding data_buffer_resolution
data_of_packets packets packet_nchan npol nbits sample_bytes nsamp whole =
    let regroup : packets * packet_nchan * npol * nbits ≡ packets * (packet_nchan * npol * nbits) =
      simp mul_assoc in
    ap (λ bits. bits / 8 * nsamp)
      (regroup ∙ ap (λ bits. packets * bits) whole ∙ sym (mul_assoc packets sample_bytes 8))
    ∙ ap (λ bytes. bytes * nsamp) (mul-div_cancel (packets * sample_bytes) (omega arith))
    ∙ mul_assoc packets sample_bytes nsamp

weights_of_packets :
    (packets packet_nchan : ℕ)
    → 0 < packet_nchan
    → weights_buffer_resolution (packets * packet_nchan) packet_nchan 1
      ≡ packets * (size_of_float32_in_bytes + 2 * packet_nchan)
unfolding weights_buffer_resolution
weights_of_packets packets packet_nchan positive =
    let spread : packets * (4 + 2 * packet_nchan) ≡ packets * 4 + packets * packet_nchan * 2 =
      grind arith in
    omega (arith, mul-div_cancel packets positive, spread)

rounding : (bits n : ℕ) → (bits / 8 * n * 8 ≤ bits * n) × (bits * n ≤ bits / 8 * n * 8 + 7 * n)
rounding bits n =
    let below : bits / 8 * 8 * n ≤ bits * n = mul-le-mul_right n (omega arith) in
    let above : bits * n ≤ (bits / 8 * 8 + 7) * n = mul-le-mul_right n (omega arith) in
    let regroup : bits / 8 * n * 8 ≡ bits / 8 * 8 * n = grind arith in
    let spread : (bits / 8 * 8 + 7) * n ≡ bits / 8 * 8 * n + 7 * n = grind arith in
    (omega arith, omega arith)

-- The whole bytes of the bits of `udp_nsamp` samples: the division rounds down before the product.
resolution_bounds :
    (obsnchan obsnpol nbits udp_nsamp : ℕ)
    → (data_buffer_resolution obsnchan obsnpol nbits udp_nsamp * 8
        ≤ obsnchan * obsnpol * nbits * udp_nsamp)
      × (obsnchan * obsnpol * nbits * udp_nsamp
          ≤ data_buffer_resolution obsnchan obsnpol nbits udp_nsamp * 8 + 7 * udp_nsamp)
unfolding data_buffer_resolution
resolution_bounds obsnchan obsnpol nbits udp_nsamp = rounding (obsnchan * obsnpol * nbits) udp_nsamp

-- A request with all keys that SMRB reads.
abbrev pub request : Option String → ℕ → ℕ → ℕ → ℕ → ℕ → SmrbRequest
request band nchan npol nbits udp_nsamp wt_nsamp = record {
  frequency_band = band;
  num_frequency_channels = some nchan;
  num_of_polarizations = some npol;
  bits_per_sample = some nbits;
  udp_nsamp = some udp_nsamp;
  wt_nsamp = some wt_nsamp;
}

calculate_known :
    (beam_id nchan npol nbits udp_nsamp wt_nsamp : ℕ) (band : Option String) (config : BandConfig)
    → get_frequency_band_config band ≡ returned config
    → 0 < wt_nsamp
    → calculate_smrb_subband_resources beam_id (request band nchan npol nbits udp_nsamp wt_nsamp)
      ≡ returned (smrb_resources beam_id config nchan npol nbits udp_nsamp (udp_nsamp / wt_nsamp))
unfolding calculate_smrb_subband_resources
calculate_known beam_id nchan npol nbits udp_nsamp wt_nsamp band config known positive =
    let test : nat_beq wt_nsamp 0 ≡ false = ground arith in rw (known, test)

calculate_raises :
    (beam_id nchan npol nbits udp_nsamp : ℕ) (band : Option String) (config : BandConfig)
    → get_frequency_band_config band ≡ returned config
    → calculate_smrb_subband_resources beam_id (request band nchan npol nbits udp_nsamp 0)
      ≡ raised zero_division_error
unfolding calculate_smrb_subband_resources
calculate_raises beam_id nchan npol nbits udp_nsamp band config known = rw known

raised-returned : {e : Exception} {s : SmrbResources} → raised e ≡ returned s → ⊥
raised-returned e = cc

returned_size :
    (s t : SmrbResources)
    → ◌≡◌ {A = Result Exception SmrbResources} (returned s) (returned t)
    → s.db_bufsz ≡ t.db_bufsz
returned_size s t e = cc

-- When the channels fill `packets` packets of the band, the bits of a sample of a packet are
-- `sample_bytes` bytes, and the weights have the samples of the data, each buffer of the data ring and
-- each of the weights ring holds exactly the packets of `packets_per_buffer` times all channels: a
-- packet has the samples of its channels, and a float and 2 bytes for each channel as its weights. Both
-- rings have the same number of buffers.
pub buffers_hold_packets :
    (beam_id : ℕ) (band : Option String) (config : BandConfig)
    (packets npol nbits sample_bytes nsamp : ℕ)
    → get_frequency_band_config band ≡ returned config
    → 0 < config.packet_nchan
    → config.packet_nchan * npol * nbits ≡ sample_bytes * 8
    → 0 < nsamp
    → let r = request band (packets * config.packet_nchan) npol nbits nsamp nsamp in
      let all_packets = config.packets_per_buffer * packets in
      (s : SmrbResources) × (calculate_smrb_subband_resources beam_id r ≡ returned s)
      × (s.db_bufsz ≡ all_packets * (sample_bytes * nsamp))
      × (s.wb_bufsz ≡ all_packets * (size_of_float32_in_bytes + 2 * config.packet_nchan))
      × (s.db_nbufs ≡ s.wb_nbufs)
unfolding calculate_smrb_subband_resources
buffers_hold_packets beam_id band config packets npol nbits sample_bytes nsamp known some_channels
      whole positive =
    (
      smrb_resources beam_id config (packets * config.packet_nchan) npol nbits nsamp
          (nsamp / nsamp),
      calculate_known beam_id (packets * config.packet_nchan) npol nbits nsamp nsamp band config
          known positive,
      ap (λ size. config.packets_per_buffer * size)
            (data_of_packets packets config.packet_nchan npol nbits sample_bytes nsamp whole)
          ∙ sym (mul_assoc config.packets_per_buffer packets (sample_bytes * nsamp)),
      ap
            (λ n.
              config.packets_per_buffer
              * weights_buffer_resolution (packets * config.packet_nchan) config.packet_nchan n)
            (div_self positive)
          ∙ ap (λ size. config.packets_per_buffer * size)
              (weights_of_packets packets config.packet_nchan some_channels)
          ∙ sym (mul_assoc config.packets_per_buffer packets _),
      refl,
    )

-- Whatever the request, a buffer of the data ring is not larger than its bits, and lacks less than a
-- byte for each sample of a packet.
pub data_buffer_bounds :
    (beam_id nchan npol nbits udp_nsamp wt_nsamp : ℕ) (band : Option String) (config : BandConfig)
    (s : SmrbResources)
    → get_frequency_band_config band ≡ returned config
    → calculate_smrb_subband_resources beam_id (request band nchan npol nbits udp_nsamp wt_nsamp)
      ≡ returned s
    → let bits = config.packets_per_buffer * (nchan * npol * nbits * udp_nsamp) in
      (s.db_bufsz * 8 ≤ bits)
      × (bits ≤ s.db_bufsz * 8 + config.packets_per_buffer * (7 * udp_nsamp))
unfolding calculate_smrb_subband_resources
data_buffer_bounds beam_id nchan npol nbits udp_nsamp zero band config s known made =
    elim (raised-returned
      (sym (calculate_raises beam_id nchan npol nbits udp_nsamp band config known) ∙ made)) [ ]
data_buffer_bounds beam_id nchan npol nbits udp_nsamp (suc wt) band config s known made =
    let bits = nchan * npol * nbits * udp_nsamp in
    let resolution = data_buffer_resolution nchan npol nbits udp_nsamp in
    let size : s.db_bufsz ≡ config.packets_per_buffer * resolution = returned_size s _ (
      sym made
      ∙ calculate_known beam_id nchan npol nbits udp_nsamp (suc wt) band config known
          (omega arith)) in
    let (low, high) = resolution_bounds nchan npol nbits udp_nsamp in
    let low' : config.packets_per_buffer * (resolution * 8) ≤ config.packets_per_buffer * bits =
      mul-le-mul_left config.packets_per_buffer low in
    let high' : config.packets_per_buffer * bits
        ≤ config.packets_per_buffer * (resolution * 8 + 7 * udp_nsamp) =
      mul-le-mul_left config.packets_per_buffer high in
    let regroup : config.packets_per_buffer * (resolution * 8)
        ≡ config.packets_per_buffer * resolution * 8 =
      grind arith in
    let spread : config.packets_per_buffer * (resolution * 8 + 7 * udp_nsamp)
        ≡ config.packets_per_buffer * (resolution * 8)
          + config.packets_per_buffer * (7 * udp_nsamp) =
      grind arith in
    (omega arith, omega arith)
