-- ===== src/ObsState/Scanning.antt =====
-- What a history of accepted calls of the machine of obs_state_model.py must hold.
use native.Mathlib.Nat.{zero-add, add-suc, suc-add, add-zero}
use ska_pst_lmc.Prelude.{
  ℕ, zero, suc, ◌+◌, ◌≤◌, ◌≡◌, refl, sym, ◌⊎◌, inl, inr, Bool, true, some, List, [], ◌∷◌, ◌∙◌,
  get_elem?, get_elem?-append_last, Option-cases, length, length-append, arith,
}
use ska_pst_lmc.ObsState.{
  State, Trigger, Dispatch, PstObsStateMachine, state_changed, init, fire_all, empty,
  resourcing_idle, idle, configuring_idle, configuring_ready, ready, scanning, component_resourced,
  component_configured, component_scanning,
}
use ska_pst_lmc.ObsState.Diagram.{next, steps, fire_all-steps}

-- The first list is left when some items of the second are dropped.
pub data Subsequence {ℓ} {A : Type ℓ} : List A → List A → Type ℓ where
  done : {ys : List A} → Subsequence [] ys
  keep : {x : A} {xs ys : List A} → Subsequence xs ys → Subsequence (x ∷ xs) (x ∷ ys)
  drop : {y : A} {xs ys : List A} → Subsequence xs ys → Subsequence xs (y ∷ ys)

Subsequence-tail {ℓ} :
    {A : Type ℓ} {x : A} {xs ys : List A} → Subsequence (x ∷ xs) ys → Subsequence xs ys
Subsequence-tail (keep s) = drop s
Subsequence-tail (drop s) = drop (Subsequence-tail s)

-- How many of the milestones are still to come, from a state, before the device can scan.
abbrev pub lacking : State → ℕ
lacking scanning = 0
lacking ready = 1
lacking configuring_ready = 1
lacking configuring_idle = 2
lacking idle = 2
lacking resourcing_idle = 2
lacking _ = 3

-- The last milestones, as many as the number says.
abbrev pub milestones : ℕ → List Trigger
milestones zero = []
milestones (suc zero) = component_scanning ∷ []
milestones (suc (suc zero)) = component_configured ∷ component_scanning ∷ []
milestones _ = component_resourced ∷ component_configured ∷ component_scanning ∷ []

-- An arrow meets at most one milestone, the first of those to come.
lacking-next :
    (s : State) (t : Trigger) (s' : State)
    → next s t ≡ some s'
    → (lacking s ≤ lacking s') ⊎ (milestones (lacking s) ≡ t ∷ milestones (lacking s'))
lacking-next s t s' h = ground arith

lacking-le : (s : State) → lacking s ≤ 3
lacking-le s = ground arith

milestones_mono :
    (m n : ℕ) (ts : List Trigger)
    → m ≤ n
    → n ≤ 3
    → Subsequence (milestones n) ts
    → Subsequence (milestones m) ts
milestones_mono zero n ts h k s = done
milestones_mono (suc zero) zero ts h k s = absurd (omega arith)
milestones_mono (suc zero) (suc zero) ts h k s = s
milestones_mono (suc zero) (suc (suc zero)) ts h k s = Subsequence-tail s
milestones_mono (suc zero) (suc (suc (suc n))) ts h k s = Subsequence-tail (Subsequence-tail s)
milestones_mono (suc (suc zero)) zero ts h k s = absurd (omega arith)
milestones_mono (suc (suc zero)) (suc zero) ts h k s = absurd (omega arith)
milestones_mono (suc (suc zero)) (suc (suc zero)) ts h k s = s
milestones_mono (suc (suc zero)) (suc (suc (suc n))) ts h k s = Subsequence-tail s
milestones_mono (suc (suc (suc m))) zero ts h k s = absurd (omega arith)
milestones_mono (suc (suc (suc m))) (suc zero) ts h k s = absurd (omega arith)
milestones_mono (suc (suc (suc m))) (suc (suc zero)) ts h k s = absurd (omega arith)
milestones_mono (suc (suc (suc m))) (suc (suc (suc n))) ts h k s = s

state-state_changed : (m : PstObsStateMachine) → (state_changed m).state ≡ m.state
unfolding state_changed
state-state_changed m = ground arith

to_scanning :
    (m m' : PstObsStateMachine) (ts : List Trigger)
    → steps m ts ≡ some m'
    → m'.state ≡ scanning
    → Subsequence (milestones (lacking m.state)) ts
to_scanning m m' [] h e = let here : m.state ≡ scanning = ground arith in rw here done
to_scanning m m' (t ∷ ts) h e = elim (Option-cases (next m.state t)) [
  | inl refused ↦ cc (rw refused at h)
  | inr (s, taken) ↦
      let m₁ = state_changed (record m { state = s }) in
      let later : Subsequence (milestones (lacking m₁.state)) ts =
        to_scanning m₁ m' ts (rw taken at h) e in
      let rest : Subsequence (milestones (lacking s)) ts = rw state-state_changed at later in
      elim (lacking-next m.state t s taken) [
        | inl more ↦ drop (milestones_mono _ _ ts more (lacking-le s) rest)
        | inr met ↦ rw met (keep rest)
      ]
]

-- `n` calls after the first one, the callback has been called `n + 1` times.
record Reported (n : ℕ) (m : PstObsStateMachine) : Type 0 where
  listens : m.has_callback ≡ true
  count : length m.called_with ≡ suc n
  last : get_elem? m.called_with n ≡ some m.state

state_changed-Reported :
    (n : ℕ) (m : PstObsStateMachine) (s : State)
    → Reported n m
    → Reported (suc n) (state_changed (record m { state = s }))
unfolding state_changed
state_changed-Reported n m s r = rw r.listens (record {
  listens = refl;
  count = omega (arith, r, length-append m.called_with (s ∷ []));
  last = rw (← r.count) (get_elem?-append_last m.called_with s);
})

steps-Reported :
    (n : ℕ) (m m' : PstObsStateMachine) (ts : List Trigger)
    → steps m ts ≡ some m'
    → Reported n m
    → Reported (length ts + n) m'
steps-Reported n m m' [] h r = let same : m ≡ m' = cc in rw (← same, zero-add) r
steps-Reported n m m' (t ∷ ts) h r = elim (Option-cases (next m.state t)) [
  | inl refused ↦ cc (rw refused at h)
  | inr (s, taken) ↦
      rw (suc-add, ← add-suc)
        (steps-Reported (suc n) (state_changed (record m { state = s })) m' ts (rw taken at h)
          (state_changed-Reported n m s r))
]

module _ (d : Dispatch) where
  -- Any history of accepted calls, from a new machine to SCANNING, holds the component's report
  -- that it is resourced, later the one that it is configured, and later the one that it scans.
  pub scanning_needs_milestones :
      (callback : Bool) (m : PstObsStateMachine) (ts : List Trigger)
      → fire_all d (init callback) ts ≡ some m
      → m.state ≡ scanning
      → Subsequence (component_resourced ∷ component_configured ∷ component_scanning ∷ []) ts
  scanning_needs_milestones callback m ts h e =
      let new : (init callback).state ≡ empty = unfold init in ground arith in
      rw new at (to_scanning (init callback) m ts (sym (fire_all-steps d (init callback) ts) ∙ h) e)

  -- With a callback, an accepted history has reported each state that it passed, the first one and
  -- the one that it stands in included, and no call more.
  pub callback_reports_each_state :
      (m : PstObsStateMachine) (ts : List Trigger)
      → fire_all d (init true) ts ≡ some m
      → (length m.called_with ≡ suc (length ts))
        × (get_elem? m.called_with (length ts) ≡ some m.state)
  unfolding init
  callback_reports_each_state m ts h =
      let new : Reported 0 (init true) = record { listens = refl; count = refl; last = refl } in
      let r = steps-Reported 0 (init true) m ts (sym (fire_all-steps d (init true) ts) ∙ h) new in
      let r' : Reported (length ts) m = rw add-zero at r in (r'.count, r'.last)
