-- ===== src/Resources/Agreement.antt =====
-- The resources of the four components of a beam fit together (src/ska_pst_lmc/smrb/smrb_util.py,
-- receive/receive_util.py, dsp/dsp_util.py, stat/stat_util.py).
use ska_pst_lmc.Prelude.{
  ℕ, ◌≡◌, ◌≢◌, sym, ap, ◌∙◌, none, some, List, get_elem?, Option-cases, arith, ◌+◌, ◌*◌, inl, inr,
}
use ska_pst_lmc.Effects.{Result, returned}
use ska_pst_lmc.Floats.{Floats}
use ska_pst_lmc.Resources.{Exception}
use ska_pst_lmc.Resources.Text.{Text, read_hex}
use ska_pst_lmc.Resources.Keys.{
  generate_data_key, generate_weights_key, read_hex-data_key, read_hex-weights_key,
}
use ska_pst_lmc.Resources.Smrb.{SmrbRequest, SmrbResources, calculate_smrb_subband_resources}
use ska_pst_lmc.Resources.Receive.{
  RequestParams, PacketResources, CommonResources, SubbandResources, divide, mega_hertz,
  calculate_receive_packet_resources, calculate_receive_common_resources, subband_resources,
  calculate_receive_subband_resources,
}
use ska_pst_lmc.Resources.Requests.{
  calculate_dsp_subband_resources, calculate_stat_subband_resources,
}

module _ {A : Type 0} where
  returned_equal : {a b : A} → ◌≡◌ {A = Result Exception A} (returned a) (returned b) → a ≡ b
  returned_equal e = cc

smrb_keys :
    (beam_id : ℕ) (request : SmrbRequest) (s : SmrbResources)
    → calculate_smrb_subband_resources beam_id request ≡ returned s
    → (s.data_key ≡ generate_data_key beam_id 1) × (s.weights_key ≡ generate_weights_key beam_id 1)
unfolding calculate_smrb_subband_resources
smrb_keys beam_id r s e = ground arith

module _ (f : Floats) (J : Type 0) (show : J → Text) where
  pub receive_returned :
      (beam_id : ℕ) (r : RequestParams f J) (data_host : Text) (ports : List ℕ)
      (resources : CommonResources f J × SubbandResources f J)
      → calculate_receive_subband_resources f J show beam_id r data_host ports ≡ returned resources
      → subband_resources f J show beam_id r data_host ports ≡ returned resources
  unfolding calculate_receive_subband_resources
  receive_returned beam_id r data_host ports resources e = ground arith

  pub packet_of_common :
      (beam_id : ℕ) (r : RequestParams f J) (c : CommonResources f J)
      → calculate_receive_common_resources f J show beam_id r ≡ returned c
      → calculate_receive_packet_resources f J r ≡ returned c.packet
  unfolding calculate_receive_common_resources
  packet_of_common beam_id r c e = ground arith

  packet_channels :
      (r : RequestParams f J) (p : PacketResources f J)
      → calculate_receive_packet_resources f J r ≡ returned p
      → r.num_frequency_channels ≡ some p.nchan
  unfolding calculate_receive_packet_resources
  packet_channels r p e = ground arith

  common_frequency :
      (beam_id : ℕ) (r : RequestParams f J) (c : CommonResources f J) (centre : f.F)
      → calculate_receive_common_resources f J show beam_id r ≡ returned c
      → r.centre_frequency ≡ some centre
      → divide f J centre (mega_hertz f J) ≡ returned c.frequency
  unfolding calculate_receive_common_resources
  common_frequency beam_id r c centre e has = ground arith

  packet_bandwidth :
      (r : RequestParams f J) (p : PacketResources f J) (total : f.F)
      → calculate_receive_packet_resources f J r ≡ returned p
      → r.total_bandwidth ≡ some total
      → divide f J total (mega_hertz f J) ≡ returned p.bandwidth
  unfolding calculate_receive_packet_resources
  packet_bandwidth r p total e has = ground arith

  module _ (beam_id : ℕ) (r : RequestParams f J) (data_host : Text) (ports : List ℕ)
      (c : CommonResources f J) (b : SubbandResources f J)
      (made : subband_resources f J show beam_id r data_host ports ≡ returned (c, b)) where
    pub subband_common : calculate_receive_common_resources f J show beam_id r ≡ returned c
    unfolding subband_resources
    subband_common = ground arith

    subband_nchan : r.num_frequency_channels ≡ some b.nchan
    unfolding subband_resources
    subband_nchan = ground arith

    subband_bandwidth :
        (total : f.F)
        → r.total_bandwidth ≡ some total
        → divide f J total (mega_hertz f J) ≡ returned b.bandwidth
    unfolding subband_resources
    subband_bandwidth total has = ground arith

    subband_frequency :
        (centre : f.F)
        → r.centre_frequency ≡ some centre
        → divide f J centre (mega_hertz f J) ≡ returned b.frequency
    unfolding subband_resources
    subband_frequency centre has = ground arith

    subband_total : r.total_bandwidth ≢ none
    unfolding subband_resources
    subband_total = ground arith

    pub subband_centre : r.centre_frequency ≢ none
    unfolding subband_resources
    subband_centre = ground arith

    subband_range :
        (b.start_channel ≡ 0)
        × (b.end_channel ≡ b.nchan)
        × (b.start_channel_out ≡ b.start_channel)
        × (b.end_channel_out ≡ b.end_channel)
        × (b.bandwidth_out ≡ b.bandwidth)
        × (b.frequency_out ≡ b.frequency)
        × (get_elem? ports 0 ≡ some b.data_port)
    unfolding subband_resources
    subband_range = ground arith

    same_channels : b.nchan ≡ c.packet.nchan
    same_channels =
        cc (subband_nchan, packet_channels r c.packet (packet_of_common beam_id r c subband_common))

    same_bandwidth : b.bandwidth ≡ c.packet.bandwidth
    same_bandwidth = elim (Option-cases r.total_bandwidth) [
      | inl missing ↦ absurd (subband_total missing)
      | inr (total, has) ↦
          let packet = packet_of_common beam_id r c subband_common in
          returned_equal
            (sym (subband_bandwidth total has) ∙ packet_bandwidth r c.packet total packet has)
    ]

    same_frequency : b.frequency ≡ c.frequency
    same_frequency = elim (Option-cases r.centre_frequency) [
      | inl missing ↦ absurd (subband_centre missing)
      | inr (centre, has) ↦ returned_equal (
          sym (subband_frequency centre has)
          ∙ common_frequency beam_id r c centre subband_common has)
    ]

  -- When RECV's resources are made, its one subband is the whole band: it has all channels, from 0 on,
  -- the bandwidth and the centre frequency of the beam, in and out, and the port is the first of the
  -- subbands' ports.
  pub subband_is_whole_band :
      (beam_id : ℕ) (r : RequestParams f J) (data_host : Text) (ports : List ℕ)
      (c : CommonResources f J) (b : SubbandResources f J)
      → calculate_receive_subband_resources f J show beam_id r data_host ports ≡ returned (c, b)
      → (b.nchan ≡ c.packet.nchan)
        × (b.start_channel ≡ 0)
        × (b.end_channel ≡ c.packet.nchan)
        × (b.bandwidth ≡ c.packet.bandwidth)
        × (b.frequency ≡ c.frequency)
        × (b.start_channel_out ≡ b.start_channel)
        × (b.end_channel_out ≡ b.end_channel)
        × (b.bandwidth_out ≡ b.bandwidth)
        × (b.frequency_out ≡ b.frequency)
        × (get_elem? ports 0 ≡ some b.data_port)
  subband_is_whole_band beam_id r data_host ports c b e =
      let made = receive_returned beam_id r data_host ports (c, b) e in
      let channels = same_channels beam_id r data_host ports c b made in
      let (start, end, start_out, end_out, width_out, centre_out, port) =
        subband_range beam_id r data_host ports c b made in
      (
        channels,
        start,
        end ∙ channels,
        same_bandwidth beam_id r data_host ports c b made,
        same_frequency beam_id r data_host ports c b made,
        start_out,
        end_out,
        width_out,
        centre_out,
        port,
      )

  -- RECV's keys, and the keys of the request that it needs.
  receive_keys :
      (beam_id : ℕ) (r : RequestParams f J) (data_host : Text) (ports : List ℕ)
      (c : CommonResources f J) (b : SubbandResources f J)
      → subband_resources f J show beam_id r data_host ports ≡ returned (c, b)
      → (b.data_key ≡ generate_data_key beam_id 1)
        × (b.weights_key ≡ generate_weights_key beam_id 1)
  unfolding subband_resources
  receive_keys beam_id r data_host ports c b made = ground arith

data_value :
    (key : Text) (beam_id : ℕ)
    → key ≡ generate_data_key beam_id 1
    → read_hex 0 key ≡ beam_id * 256 + 16
data_value key beam_id e =
    ap (read_hex 0) e ∙ omega (arith, read_hex-data_key beam_id 1 (omega arith))

weights_value :
    (key : Text) (beam_id : ℕ)
    → key ≡ generate_weights_key beam_id 1
    → read_hex 0 key ≡ beam_id * 256 + 18
weights_value key beam_id e =
    ap (read_hex 0) e ∙ omega (arith, read_hex-weights_key beam_id 1 (omega arith))

module _ (f : Floats) (J : Type 0) (show : J → Text) where
  -- When SMRB's and RECV's resources of a beam are made, RECV writes to the data and weights rings that
  -- SMRB allocates, and DSP and STAT read from them. The rings are two, and neither is a ring that SMRB
  -- allocates for another beam.
  pub ring_buffers_agree :
      (beam_id : ℕ) (request : SmrbRequest) (s : SmrbResources) (r : RequestParams f J)
      (data_host : Text) (ports : List ℕ) (c : CommonResources f J) (b : SubbandResources f J)
      (other_beam : ℕ) (other_request : SmrbRequest) (other : SmrbResources)
      → calculate_smrb_subband_resources beam_id request ≡ returned s
      → calculate_receive_subband_resources f J show beam_id r data_host ports ≡ returned (c, b)
      → calculate_smrb_subband_resources other_beam other_request ≡ returned other
      → beam_id ≢ other_beam
      → let dsp = calculate_dsp_subband_resources beam_id in
        let stat = calculate_stat_subband_resources beam_id in
        (b.data_key ≡ s.data_key)
        × (b.weights_key ≡ s.weights_key)
        × (dsp.data_key ≡ s.data_key)
        × (dsp.weights_key ≡ s.weights_key)
        × (stat.data_key ≡ s.data_key)
        × (stat.weights_key ≡ s.weights_key)
        × (s.data_key ≢ s.weights_key)
        × (s.data_key ≢ other.data_key)
        × (s.data_key ≢ other.weights_key)
        × (s.weights_key ≢ other.data_key)
        × (s.weights_key ≢ other.weights_key)
  unfolding calculate_dsp_subband_resources calculate_stat_subband_resources
  ring_buffers_agree beam_id request s r data_host ports c b other_beam other_request other es er eo
        ne =
      let (data_s, weights_s) = smrb_keys beam_id request s es in
      let (data_o, weights_o) = smrb_keys other_beam other_request other eo in
      let (data_r, weights_r) =
        receive_keys f J show beam_id r data_host ports c b
          (receive_returned f J show beam_id r data_host ports (c, b) er) in
      let v = data_value s.data_key beam_id data_s in
      let w = weights_value s.weights_key beam_id weights_s in
      let v' = data_value other.data_key other_beam data_o in
      let w' = weights_value other.weights_key other_beam weights_o in
      (
        data_r ∙ sym data_s,
        weights_r ∙ sym weights_s,
        sym data_s,
        sym weights_s,
        sym data_s,
        sym weights_s,
        λ e. omega (arith, v, w, ap (read_hex 0) e),
        λ e. omega (arith, v, v', ap (read_hex 0) e),
        λ e. omega (arith, v, w', ap (read_hex 0) e),
        λ e. omega (arith, w, v', ap (read_hex 0) e),
        λ e. omega (arith, w, w', ap (read_hex 0) e),
      )
