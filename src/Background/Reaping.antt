-- ===== src/Background/Reaping.antt =====
-- What is left of the tasks after a reap (src/ska_pst_lmc/util/background_task.py, `_reap`).
use ska_pst_lmc.Prelude.{
  ℕ, zero, suc, ◌≤◌, ◌≡◌, refl, sym, ap, ◌∙◌, inl, inr, Bool, true, false, not, ◌&&◌, ◌||◌, none,
  some, List, [], ◌∷◌, ◌++◌, length, get_elem?, nat_beq, nat_beq_iff, if◌then◌else◌, arith,
  Bool-cases, Option-cases,
}
use ska_pst_lmc.Background.{BackgroundTask, task_running, remove, reap_from, reap}

abbrev pub select : (ℕ → Bool) → List ℕ → List ℕ
select p [] = []
select p (x ∷ xs) = let rest = select p xs in if p x then x ∷ rest else rest

abbrev member : ℕ → List ℕ → Bool
member t [] = false
member t (x ∷ xs) = nat_beq x t || member t xs

abbrev pub unique : List ℕ → Bool
unique [] = true
unique (x ∷ xs) = not (member x xs) && unique xs

snoc-append : (pre : List ℕ) (t : ℕ) (ts : List ℕ) → (pre ++ t ∷ []) ++ ts ≡ pre ++ t ∷ ts
snoc-append [] t ts = refl
snoc-append (x ∷ pre) t ts = ap (λ l. x ∷ l) (snoc-append pre t ts)

get_elem?-at_length : (pre ts : List ℕ) → get_elem? (pre ++ ts) (length pre) ≡ get_elem? ts 0
get_elem?-at_length [] ts = refl
get_elem?-at_length (x ∷ pre) ts = get_elem?-at_length pre ts

length-snoc : (pre : List ℕ) (t : ℕ) → length (pre ++ t ∷ []) ≡ suc (length pre)
length-snoc [] t = refl
length-snoc (x ∷ pre) t = ap suc (length-snoc pre t)

get_elem?-past : (pre : List ℕ) (t : ℕ) → get_elem? (pre ++ t ∷ []) (suc (length pre)) ≡ none
get_elem?-past [] t = refl
get_elem?-past (x ∷ pre) t = get_elem?-past pre t

get_elem?-beyond : (pre : List ℕ) → get_elem? (pre ++ []) (suc (length pre)) ≡ none
get_elem?-beyond [] = refl
get_elem?-beyond (x ∷ pre) = get_elem?-beyond pre

member-append : (x : ℕ) (pre ts : List ℕ) → member x (pre ++ ts) ≡ (member x pre || member x ts)
member-append x [] ts = refl
member-append x (y ∷ pre) ts = ground (arith, member-append x pre ts)

unique-without :
    (pre : List ℕ) (t : ℕ) (ts : List ℕ) → unique (pre ++ t ∷ ts) ≡ true → unique (pre ++ ts) ≡ true
unique-without [] t ts u = ground arith
unique-without (x ∷ pre) t ts u =
    ground (arith, unique-without pre t ts, member-append x pre ts, member-append x pre (t ∷ ts))

remove-append :
    (pre : List ℕ) (t : ℕ) (ts : List ℕ)
    → unique (pre ++ t ∷ ts) ≡ true
    → remove t (pre ++ t ∷ ts) ≡ pre ++ ts
remove-append [] t ts u = ground (arith, nat_beq_iff t t)
remove-append (x ∷ pre) t ts u =
    ground (
      arith,
      remove-append pre t ts,
      member-append x pre (t ∷ ts),
      nat_beq_iff x t,
      nat_beq_iff t x,
    )

module _ (task : ℕ → BackgroundTask) where
  abbrev pub runs : ℕ → Bool
  runs t = task_running (task t)

  select-remove :
      (t : ℕ) (ts : List ℕ) → runs t ≡ false → select runs (remove t ts) ≡ select runs ts
  select-remove t [] stopped = refl
  select-remove t (x ∷ xs) stopped = ground (arith, nat_beq_iff x t, select-remove t xs stopped)

  reap_from-zero : (i : ℕ) (ts : List ℕ) → reap_from task 0 i ts ≡ ts
  unfolding reap_from
  reap_from-zero i ts = refl

  reap_from-over :
      (fuel i : ℕ) (ts : List ℕ) → get_elem? ts i ≡ none → reap_from task fuel i ts ≡ ts
  unfolding reap_from
  reap_from-over zero i ts over = refl
  reap_from-over (suc fuel) i ts over = rw (over, reap_from)

  reap_from-on :
      (fuel i : ℕ) (ts : List ℕ) (t : ℕ)
      → get_elem? ts i ≡ some t
      → runs t ≡ true
      → reap_from task (suc fuel) i ts ≡ reap_from task fuel (suc i) ts
  unfolding reap_from
  reap_from-on fuel i ts t at on = rw (at, on, reap_from)

  reap_from-off :
      (fuel i : ℕ) (ts : List ℕ) (t : ℕ)
      → get_elem? ts i ≡ some t
      → runs t ≡ false
      → reap_from task (suc fuel) i ts ≡ reap_from task fuel (suc i) (remove t ts)
  unfolding reap_from
  reap_from-off fuel i ts t at off = rw (at, off, reap_from)

  select-reap_from :
      (fuel i : ℕ) (ts : List ℕ) → select runs (reap_from task fuel i ts) ≡ select runs ts
  select-reap_from zero i ts = ap (select runs) (reap_from-zero i ts)
  select-reap_from (suc fuel) i ts = elim (Option-cases (get_elem? ts i)) [
    | inl over ↦ ap (select runs) (reap_from-over (suc fuel) i ts over)
    | inr (t, at) ↦ elim (Bool-cases (runs t)) [
      | inl on ↦
          ap (select runs) (reap_from-on fuel i ts t at on) ∙ select-reap_from fuel (suc i) ts
      | inr off ↦
          ap (select runs) (reap_from-off fuel i ts t at off)
          ∙ select-reap_from fuel (suc i) (remove t ts)
          ∙ select-remove t ts off
    ]
  ]

  -- What a reap leaves: it looks at a task, and when that is not running it is removed and the task
  -- after it is kept without a look.
  abbrev pub skipping : List ℕ → List ℕ
  skipping [] = []
  skipping (t ∷ []) = if runs t then t ∷ [] else []
  skipping (t ∷ u ∷ us) = if runs t then t ∷ skipping (u ∷ us) else u ∷ skipping us

  skipping_on : (t : ℕ) (ts : List ℕ) → runs t ≡ true → skipping (t ∷ ts) ≡ t ∷ skipping ts
  skipping_on t [] on = rw on
  skipping_on t (u ∷ us) on = rw on

  skipping_last : (t : ℕ) → runs t ≡ false → skipping (t ∷ []) ≡ []
  skipping_last t off = rw off

  skipping_off : (t u : ℕ) (us : List ℕ) → runs t ≡ false → skipping (t ∷ u ∷ us) ≡ u ∷ skipping us
  skipping_off t u us off = rw off

  -- The first of the tasks that are left moves to those the loop is past.
  reap_from-moved :
      (fuel : ℕ) (pre : List ℕ) (t : ℕ) (ts : List ℕ)
      → reap_from task fuel (suc (length pre)) (pre ++ t ∷ ts)
        ≡ reap_from task fuel (length (pre ++ t ∷ [])) ((pre ++ t ∷ []) ++ ts)
  reap_from-moved fuel pre t ts =
      ap (λ i. reap_from task fuel i (pre ++ t ∷ ts)) (sym (length-snoc pre t))
      ∙ ap (reap_from task fuel (length (pre ++ t ∷ []))) (sym (snoc-append pre t ts))

  reap_from-skipping :
      (fuel : ℕ) (pre ts : List ℕ)
      → length ts ≤ fuel
      → unique (pre ++ ts) ≡ true
      → reap_from task fuel (length pre) (pre ++ ts) ≡ pre ++ skipping ts
  reap_from-skipping fuel pre [] enough u =
      reap_from-over fuel (length pre) (pre ++ []) (get_elem?-at_length pre [])
  reap_from-skipping zero pre (t ∷ ts) enough u = elim enough [ ]
  reap_from-skipping (suc fuel) pre (t ∷ []) enough u = elim (Bool-cases (runs t)) [
    | inl on ↦
        reap_from-on fuel (length pre) (pre ++ t ∷ []) t (get_elem?-at_length pre (t ∷ [])) on
        ∙ reap_from-over fuel (suc (length pre)) (pre ++ t ∷ []) (get_elem?-past pre t)
        ∙ ap (λ l. pre ++ l) (sym (skipping_on t [] on))
    | inr off ↦
        reap_from-off fuel (length pre) (pre ++ t ∷ []) t (get_elem?-at_length pre (t ∷ [])) off
        ∙ ap (reap_from task fuel (suc (length pre))) (remove-append pre t [] u)
        ∙ reap_from-over fuel (suc (length pre)) (pre ++ []) (get_elem?-beyond pre)
        ∙ ap (λ l. pre ++ l) (sym (skipping_last t off))
  ]
  reap_from-skipping (suc fuel) pre (t ∷ v ∷ ts) enough u = elim (Bool-cases (runs t)) [
    | inl on ↦
        reap_from-on fuel (length pre) (pre ++ t ∷ v ∷ ts) t (get_elem?-at_length pre (t ∷ v ∷ ts))
          on
        ∙ reap_from-moved fuel pre t (v ∷ ts)
        ∙ reap_from-skipping fuel (pre ++ t ∷ []) (v ∷ ts) (omega arith)
            (ap unique (snoc-append pre t (v ∷ ts)) ∙ u)
        ∙ snoc-append pre t (skipping (v ∷ ts))
        ∙ ap (λ l. pre ++ l) (sym (skipping_on t (v ∷ ts) on))
    | inr off ↦
        reap_from-off fuel (length pre) (pre ++ t ∷ v ∷ ts) t (get_elem?-at_length pre (t ∷ v ∷ ts))
          off
        ∙ ap (reap_from task fuel (suc (length pre))) (remove-append pre t (v ∷ ts) u)
        ∙ reap_from-moved fuel pre v ts
        ∙ reap_from-skipping fuel (pre ++ v ∷ []) ts (omega arith)
            (ap unique (snoc-append pre v ts) ∙ unique-without pre t (v ∷ ts) u)
        ∙ snoc-append pre v (skipping ts)
        ∙ ap (λ l. pre ++ l) (sym (skipping_off t v ts off))
  ]

  -- A reap of tasks that are all different looks at a task, removes it when it is not running, and
  -- then keeps the next task without a look at it. It keeps every running task, and their order.
  pub reap_skips :
      (ts : List ℕ)
      → unique ts ≡ true
      → (reap task ts ≡ skipping ts) × (select runs (reap task ts) ≡ select runs ts)
  unfolding reap
  reap_skips ts u =
      (reap_from-skipping (length ts) [] ts (omega arith) u, select-reap_from (length ts) 0 ts)
