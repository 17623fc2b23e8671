-- ===== src/Resources.antt =====
-- What the configuration of a beam and a scan is made of (src/ska_pst_lmc/band/band_config.py and the
-- `_util.py` modules of SMRB, RECV, DSP and STAT): the request, and reading a key of it. A request is a
-- record with an option for each key; the values that are there have the type that the code expects.
-- Text is the list of its code points.
pub mod Text
pub mod Band
pub mod Keys
pub mod Smrb
pub mod Buffers
pub mod Receive
pub mod Requests
pub mod Agreement
pub mod Errors
mod Examples
use ska_pst_lmc.Prelude.{ℕ, String, Option, none, some, List}
use ska_pst_lmc.Effects.{Result, returned, raised}
use ska_pst_lmc.Floats.{Floats}

pub data Exception : Type 0 where
  key_error runtime_error : String → Exception
  zero_division_error index_error : Exception

infixl 5 ◌>>=◌
abbrev pub ◌>>=◌ :
    {A B : Type 0} → Result Exception A → (A → Result Exception B) → Result Exception B
returned a >>= f = f a
raised e >>= f = raised e

-- `request_params[key]`
abbrev pub item : {A : Type 0} → String → Option A → Result Exception A
item key none = raised (key_error key)
item key (some v) = returned v

-- `request_params.get(key, default)`
abbrev pub get_or : {A : Type 0} → Option A → A → A
get_or none default = default
get_or (some v) default = v
