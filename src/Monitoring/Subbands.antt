-- ===== src/Monitoring/Subbands.antt =====
-- Values of the subbands in lists with a place for each subband, as the loops of the monitoring data
-- fill them (src/ska_pst_lmc/smrb/smrb_model.py, src/ska_pst_lmc/dsp/dsp_model.py).
use ska_pst_lmc.Prelude.{
  ℕ, zero, suc, ◌+◌, ◌-◌, ◌<◌, ◌≤◌, ◌≡◌, true, Option, none, some, List, [], ◌∷◌, All, length, set,
  get_elem?, get_elem?-set_self, get_elem?-set_ne, lookup, distinct, nat_key, nat_beq_iff, ltb,
  if◌then◌else◌, arith,
}

-- `items[subband_id - 1] = x`: the id 0 writes to the last place, and an id that is too large raises
-- an `IndexError`.
abbrev pub set_item {ℓ} : {A : Type ℓ} → List A → ℕ → A → Option (List A)
set_item items zero x = if ltb 0 (length items) then some (set items (length items - 1) x) else none
set_item items (suc idx) x = if ltb idx (length items) then some (set items idx x) else none

pub set_item-some :
    {A : Type 0} (xs : List A) (idx : ℕ) (x : A)
    → suc idx ≤ length xs
    → set_item xs (suc idx) x ≡ some (set xs idx x)
set_item-some xs idx x h = ground arith

module _ {S : Type 0} where
  -- The sum of a number of each subband.
  abbrev pub total : (S → ℕ) → List (ℕ × S) → ℕ
  total of [] = 0
  total of ((subband_id, subband) ∷ items) = of subband + total of items

  -- The subband ids are 1 to `n`.
  abbrev pub Fit : ℕ → List (ℕ × S) → Type 0
  Fit n items = All (λ item. (0 < item.0) × (item.0 ≤ n)) items

module _ {S V : Type 0} where
  -- The subband's value at the place `i`, or what was there.
  abbrev pub entry : (S → V) → List (ℕ × S) → ℕ → Option V → Option V
  entry of items i old = elim (lookup (suc i) items) [
    | none ↦ old
    | some subband ↦ some (of subband)
  ]

  pub entry-there :
      (of : S → V) (items : List (ℕ × S)) (i : ℕ) (old : Option V) {subband : S}
      → lookup (suc i) items ≡ some subband
      → entry of items i old ≡ some (of subband)
  entry-there of items i old there = rw (there, entry)

  pub entry-set :
      (of : S → V) (items : List (ℕ × S)) (xs : List V) (idx i : ℕ) (subband : S)
      → suc idx ≤ length xs
      → distinct ((suc idx, subband) ∷ items) ≡ true
      → entry of items i (get_elem? (set xs idx (of subband)) i)
        ≡ entry of ((suc idx, subband) ∷ items) i (get_elem? xs i)
  entry-set of items xs idx i subband h d = ground (
    arith,
    get_elem?-set_self xs idx (of subband) h,
    nat_beq_iff idx i,
    nat_beq_iff (suc idx) (suc i),
    get_elem?-set_ne xs {i = idx} {j = i} (of subband),
  )
