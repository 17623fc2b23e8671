-- ===== src/Resources/Errors.antt =====
-- The exceptions of RECV's resources (src/ska_pst_lmc/receive/receive_util.py).
use ska_pst_lmc.Prelude.{
  ℕ, String, ◌≡◌, ◌≢◌, ap, ◌∙◌, Bool, true, false, ◌&&◌, Option, none, some, List, arith, inl, inr,
}
use ska_pst_lmc.Effects.{returned, raised, Result-cases}
use ska_pst_lmc.Floats.{Floats}
use ska_pst_lmc.Resources.{Exception, key_error}
use ska_pst_lmc.Resources.Text.{Text}
use ska_pst_lmc.Resources.Receive.{
  RequestParams, PacketResources, CommonResources, SubbandResources,
  calculate_receive_packet_resources, calculate_receive_common_resources,
  calculate_receive_subband_resources,
}
use ska_pst_lmc.Resources.Agreement.{receive_returned, packet_of_common, subband_common}

abbrev pub has : {A : Type 0} → Option A → Bool
has none = false
has (some v) = true

module _ (f : Floats) (J : Type 0) where
  -- The keys that `calculate_receive_packet_resources` needs, and the others.
  abbrev pub has_packet_keys : RequestParams f J → Bool
  has_packet_keys r =
      has r.num_frequency_channels
      && has r.num_of_polarizations
      && has r.bits_per_sample
      && has r.oversampling_ratio
      && has r.total_bandwidth

  abbrev pub has_common_keys : RequestParams f J → Bool
  has_common_keys r =
      has r.udp_nsamp
      && has r.wt_nsamp
      && has r.udp_nchan
      && has r.centre_frequency
      && has r.receiver_id
      && has r.feed_polarization
      && has r.feed_handedness
      && has r.feed_angle
      && has r.feed_tracking_mode
      && has r.feed_position_angle
      && has r.receptors
      && has r.receptor_weights

  packet_needs :
      (r : RequestParams f J) (p : PacketResources f J)
      → calculate_receive_packet_resources f J r ≡ returned p
      → has_packet_keys r ≡ true
  unfolding calculate_receive_packet_resources
  packet_needs r p e = ground arith

  module _ (show : J → Text) where
    common_needs :
        (beam_id : ℕ) (r : RequestParams f J) (c : CommonResources f J)
        → calculate_receive_common_resources f J show beam_id r ≡ returned c
        → has_common_keys r ≡ true
    unfolding calculate_receive_common_resources
    common_needs beam_id r c e = ground arith

    receive_needs :
        (beam_id : ℕ) (r : RequestParams f J) (data_host : Text) (ports : List ℕ)
        (c : CommonResources f J) (b : SubbandResources f J)
        → calculate_receive_subband_resources f J show beam_id r data_host ports ≡ returned (c, b)
        → (has_packet_keys r && has_common_keys r) ≡ true
    receive_needs beam_id r data_host ports c b e =
        let common =
          subband_common f J show beam_id r data_host ports c b
            (receive_returned f J show beam_id r data_host ports (c, b) e) in
        ground (
          arith,
          packet_needs r c.packet (packet_of_common f J show beam_id r c common),
          common_needs beam_id r c common,
        )

    no_key_error :
        (beam_id : ℕ) (r : RequestParams f J) (data_host : Text) (ports : List ℕ) (key : String)
        → calculate_receive_subband_resources f J show beam_id r data_host ports
          ≢ raised (key_error key)
    unfolding calculate_receive_subband_resources
    no_key_error beam_id r data_host ports key = ground arith

    -- When a key that RECV needs is missing, the calculation of its resources raises, and what it raises
    -- is not a `KeyError`.
    pub missing_key_raises :
        (beam_id : ℕ) (r : RequestParams f J) (data_host : Text) (ports : List ℕ)
        → (has_packet_keys r && has_common_keys r) ≡ false
        → (e : Exception) × (calculate_receive_subband_resources f J show beam_id r data_host ports
            ≡ raised e)
          × ((key : String) → e ≢ key_error key)
    missing_key_raises beam_id r data_host ports missing =
        elim (Result-cases
          (calculate_receive_subband_resources f J show beam_id r data_host ports)) [
            | inl ((c, b), e) ↦ cc (receive_needs beam_id r data_host ports c b e, missing)
            | inr (x, e) ↦
                (x, e, λ key same. no_key_error beam_id r data_host ports key (e ∙ ap raised same))
          ]
