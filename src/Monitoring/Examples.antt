-- ===== src/Monitoring/Examples.antt =====
-- Monitoring data of two ring buffers.
use ska_pst_lmc.Prelude.{
  ℕ, suc, ◌+◌, ◌*◌, ◌/◌, nat_beq, if◌then◌else◌, ◌<◌, ◌≡◌, refl, Option, none, some, List, [], ◌∷◌,
  get_elem?, lookup, nat_key, arith,
}
use ska_pst_lmc.Monitoring.{MonitorDataHandler}
use ska_pst_lmc.Floats.{Floats}
use ska_pst_lmc.Monitoring.Smrb.{SmrbSubbandMonitorData, SmrbMonitorData, smrb_monitor_data}
use ska_pst_lmc.Monitoring.SmrbTotals.{Items, percentage, smrb_monitor_data_lem}
use ska_pst_lmc.Monitoring.Handler.{Update, subband, reset}

-- Numbers of which only the whole part of a quotient is kept.
abbrev pub whole : Floats
whole = record {
  F = ℕ;
  of_int = λ n. n;
  plus = λ a b. a + b;
  times = λ a b. a * b;
  divide = λ a b. if nat_beq b 0 then none else some (a / b);
}

abbrev ratio : SmrbSubbandMonitorData → ℕ
ratio d = d.full / d.num_of_buffers

divides : (x b : ℕ) → 0 < b → (q : ℕ) × (whole.divide x b ≡ some q)
divides x b positive = (x / b, ground arith)

abbrev first_buffer : SmrbSubbandMonitorData
first_buffer = record {
  buffer_size = 100;
  num_of_buffers = 8;
  total_written = 60;
  total_read = 50;
  full = 24;
}

abbrev second_buffer : SmrbSubbandMonitorData
second_buffer = record {
  buffer_size = 300;
  num_of_buffers = 8;
  total_written = 10;
  total_read = 9;
  full = 8;
}

abbrev buffers : Items
buffers = (2, second_buffer) ∷ (1, first_buffer) ∷ []

smrb_monitor_data_lem_example :
    (r : SmrbMonitorData whole) × (smrb_monitor_data whole buffers ≡ some r)
    × (r.number_subbands ≡ 2)
    × (r.ring_buffer_size ≡ 400)
    × (r.ring_buffer_read ≡ 59)
    × (r.ring_buffer_written ≡ 70)
    × (r.ring_buffer_size ≡ 0 → r.ring_buffer_utilisation ≡ 0)
    × (0 < r.ring_buffer_size
        → (q : ℕ) × (whole.divide 600 r.ring_buffer_size ≡ some q)
          × (r.ring_buffer_utilisation ≡ q * 100))
    × ((i : ℕ) (s : SmrbSubbandMonitorData)
        → lookup (suc i) buffers ≡ some s
        → (get_elem? r.subband_ring_buffer_utilisations i ≡ some (percentage whole divides ratio s))
          × (get_elem? r.subband_ring_buffer_sizes i ≡ some s.buffer_size)
          × (get_elem? r.subband_ring_buffer_read i ≡ some s.total_read)
          × (get_elem? r.subband_ring_buffer_written i ≡ some s.total_written))
smrb_monitor_data_lem_example =
    smrb_monitor_data_lem whole divides ratio buffers
      ((omega arith, omega arith, refl), ((omega arith, omega arith, refl), tt)) refl

-- A store with a place for one subband.
abbrev count : List (ℕ × ℕ) → Option ℕ
count [] = some 0
count ((subband_id, n) ∷ []) = some n
count (_ ∷ _ ∷ d) = none

abbrev idle_handler : MonitorDataHandler ℕ ℕ
idle_handler = record { subband_data = []; monitor_data = 0; told = [] }

abbrev some_updates : List (Update ℕ)
some_updates = subband 1 7 ∷ subband 2 5 ∷ reset ∷ subband 2 5 ∷ subband 2 6 ∷ []
