-- ===== src/Resources/Keys.antt =====
-- The keys of the ring buffers (src/ska_pst_lmc/smrb/smrb_util.py).
use ska_pst_lmc.Prelude.{
  ℕ, ◌+◌, ◌*◌, ◌/◌, ◌%◌, ◌<◌, ◌≡◌, ap, ◌∙◌, [], ◌∷◌, ◌++◌, length, arith, length-append,
}
use ska_pst_lmc.Resources.Text.{
  Text, hex, decimal, read_hex, read_hex-append, read_hex-hex, length-hex, digits-single, digit,
  digit_value-digit,
}

abbrev pub data_key_suffix : ℕ
data_key_suffix = 0

abbrev pub weights_key_suffix : ℕ
weights_key_suffix = 2

unfoldable pub generate_data_key : ℕ → ℕ → Text
generate_data_key beam_id subband_id =
    hex beam_id ++ (decimal subband_id ++ decimal data_key_suffix)

unfoldable pub generate_weights_key : ℕ → ℕ → Text
generate_weights_key beam_id subband_id =
    hex beam_id ++ (decimal subband_id ++ decimal weights_key_suffix)

-- The key with a suffix of one digit.
abbrev key : ℕ → ℕ → ℕ → Text
key beam_id subband_id suffix = hex beam_id ++ (decimal subband_id ++ decimal suffix)

decimal-digit : (n : ℕ) → n < 10 → decimal n ≡ digit n ∷ []
unfolding decimal
decimal-digit n h = digits-single 10 n n h

read_hex-decimal : (acc d : ℕ) → d < 10 → read_hex acc (decimal d) ≡ acc * 16 + d
read_hex-decimal acc d h =
    ap (read_hex acc) (decimal-digit d h)
    ∙ ap (λ v. acc * 16 + v) (digit_value-digit d (omega arith))

read_hex-key :
    (beam_id subband_id suffix : ℕ)
    → subband_id < 10
    → suffix < 10
    → read_hex 0 (key beam_id subband_id suffix) ≡ beam_id * 256 + subband_id * 16 + suffix
read_hex-key beam_id subband_id suffix h k =
    read_hex-append 0 (hex beam_id) (decimal subband_id ++ decimal suffix)
    ∙ ap (λ acc. read_hex acc (decimal subband_id ++ decimal suffix)) (read_hex-hex beam_id)
    ∙ read_hex-append beam_id (decimal subband_id) (decimal suffix)
    ∙ read_hex-decimal (read_hex beam_id (decimal subband_id)) suffix k
    ∙ omega (arith, read_hex-decimal beam_id subband_id h)

length-decimal : (d : ℕ) → d < 10 → length (decimal d) ≡ 1
length-decimal d h = ap length (decimal-digit d h)

length-key :
    (beam_id subband_id suffix : ℕ)
    → beam_id < 256
    → subband_id < 10
    → suffix < 10
    → length (key beam_id subband_id suffix) ≡ 4
length-key beam_id subband_id suffix b h k = omega (
  arith,
  length-append (hex beam_id) (decimal subband_id ++ decimal suffix),
  length-append (decimal subband_id) (decimal suffix),
  length-hex beam_id b,
  length-decimal subband_id h,
  length-decimal suffix k,
)

-- The beam and the subband that a key names.
abbrev pub read_key : Text → ℕ × ℕ
read_key text = (read_hex 0 text / 256, read_hex 0 text / 16 % 16)

read_key_lem :
    (text : Text) (beam_id subband_id suffix : ℕ)
    → read_hex 0 text ≡ beam_id * 256 + subband_id * 16 + suffix
    → subband_id < 10
    → suffix < 10
    → read_key text ≡ (beam_id, subband_id)
read_key_lem text beam_id subband_id suffix e h k = ground arith

pub read_hex-data_key :
    (beam_id subband_id : ℕ)
    → subband_id < 10
    → read_hex 0 (generate_data_key beam_id subband_id) ≡ beam_id * 256 + subband_id * 16
unfolding generate_data_key
read_hex-data_key beam_id subband_id h =
    omega (arith, read_hex-key beam_id subband_id data_key_suffix h (omega arith))

pub read_hex-weights_key :
    (beam_id subband_id : ℕ)
    → subband_id < 10
    → read_hex 0 (generate_weights_key beam_id subband_id) ≡ beam_id * 256 + subband_id * 16 + 2
unfolding generate_weights_key
read_hex-weights_key beam_id subband_id h =
    read_hex-key beam_id subband_id weights_key_suffix h (omega arith)

-- A beam and a subband of one digit are read back from the data key and from the weights key, which is
-- the data key plus 2. The keys of a beam below 256 have four characters.
pub keys_round_trip :
    (beam_id subband_id : ℕ)
    → subband_id < 10
    → let data_key = generate_data_key beam_id subband_id in
      let weights_key = generate_weights_key beam_id subband_id in
      (read_key data_key ≡ (beam_id, subband_id))
      × (read_key weights_key ≡ (beam_id, subband_id))
      × (read_hex 0 weights_key ≡ read_hex 0 data_key + 2)
      × (beam_id < 256 → (length data_key ≡ 4) × (length weights_key ≡ 4))
unfolding generate_data_key generate_weights_key
keys_round_trip beam_id subband_id h =
    let of_data = read_hex-key beam_id subband_id data_key_suffix h (omega arith) in
    let of_weights = read_hex-key beam_id subband_id weights_key_suffix h (omega arith) in
    (
      read_key_lem (key beam_id subband_id data_key_suffix) beam_id subband_id data_key_suffix
          of_data h (omega arith),
      read_key_lem (key beam_id subband_id weights_key_suffix) beam_id subband_id weights_key_suffix
          of_weights h (omega arith),
      omega (arith, of_data, of_weights),
      λ b. (
        length-key beam_id subband_id data_key_suffix b h (omega arith),
        length-key beam_id subband_id weights_key_suffix b h (omega arith),
      ),
    )
