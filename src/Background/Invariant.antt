-- ===== src/Background/Invariant.antt =====
-- What holds of a background task in every state that the steps of `Thread` reach
-- (src/ska_pst_lmc/util/background_task.py, `BackgroundTask`).
use mathlib.Core.Path.{subst}
use ska_pst_lmc.Prelude.{
  ℕ, ◌≡◌, refl, sym, ◌∙◌, inl, inr, Bool, true, false, Option, none, some, List, [], ◌∷◌,
  if◌then◌else◌, ◌||◌, ◌&&◌, not, arith, Option-cases,
}
use ska_pst_lmc.Background.{
  RunState, stopped, starting, running, stopping, errored, is_running, run,
}
use ska_pst_lmc.Background.Thread.{
  Life, idle, begun, looping, acting, finished, World, new_world, Event, step, steps,
}

abbrev pub is_some : Option ℕ → Bool
is_some none = false
is_some (some e) = true

abbrev is_stopped : RunState → Bool
is_stopped stopped = true
is_stopped _ = false

abbrev is_stopping : RunState → Bool
is_stopping stopping = true
is_stopping _ = false

-- What holds of a task in each part of its thread's life.
abbrev pub consistent : RunState → Bool → Option ℕ → Bool → Life → Bool → Bool
consistent s thread e done idle joining =
    not thread && not done && not joining && is_stopped s && not (is_some e)
consistent s thread e done begun joining =
    thread && not done && not (is_some e) && (if joining then is_stopping s else is_running s)
consistent s thread e done looping joining =
    thread
    && not done
    && not (is_some e)
    && (if joining then is_stopping s || is_running s else is_running s)
consistent s thread e done acting joining =
    thread
    && not done
    && not (is_some e)
    && (if joining then is_stopping s || is_running s else is_running s)
consistent s thread e done finished joining =
    if done
    then not thread
      && (if is_some e
          then (elim s [
            | stopped ↦ false
            | starting ↦ false
            | running ↦ false
            | stopping ↦ false
            | errored ↦ true
          ])
          else is_stopped s)
    else thread && joining && is_stopping s && not (is_some e)

abbrev pub is_consistent : World → Bool
is_consistent w =
    consistent w.task.state w.task.has_thread w.task.exception w.task.completed w.life w.joining

pub step-consistent :
    (periodic : Bool) (e : Event) (w next : World)
    → is_consistent w ≡ true
    → step periodic e w ≡ some next
    → is_consistent next ≡ true
unfolding step run
step-consistent periodic e w next ok now = ground arith

some_equal : (w next : World) → some w ≡ some next → w ≡ next
some_equal w next e = cc

none-some : (next : World) → none ≡ some next → ⊥
none-some next e = ground arith

steps_over :
    (periodic : Bool) (e : Event) (es : List Event) (w : World)
    → step periodic e w ≡ none
    → steps periodic (e ∷ es) w ≡ none
unfolding steps
steps_over periodic e es w stuck = rw (stuck, steps)

steps_on :
    (periodic : Bool) (e : Event) (es : List Event) (w mid : World)
    → step periodic e w ≡ some mid
    → steps periodic (e ∷ es) w ≡ steps periodic es mid
unfolding steps
steps_on periodic e es w mid at = rw (at, steps)

-- What each step keeps, any steps keep.
pub steps-keep :
    (P : World → Type 0) (periodic : Bool)
    → ((e : Event) (w next : World) → P w → step periodic e w ≡ some next → P next)
    → (es : List Event) (w next : World) → P w
    → steps periodic es w ≡ some next
    → P next
unfolding steps
steps-keep P periodic kept [] w next start now = subst P (some_equal w next now) start
steps-keep P periodic kept (e ∷ es) w next start now = elim (Option-cases (step periodic e w)) [
  | inl stuck ↦ elim (none-some next (sym (steps_over periodic e es w stuck) ∙ now)) [ ]
  | inr (mid, at) ↦
      steps-keep P periodic kept es mid next (kept e w mid start at)
        (sym (steps_on periodic e es w mid at) ∙ now)
]

pub reached-consistent :
    (periodic : Bool) (es : List Event) (w : World)
    → steps periodic es new_world ≡ some w
    → is_consistent w ≡ true
reached-consistent periodic es w at =
    steps-keep (λ v. is_consistent v ≡ true) periodic
      (λ e v next. step-consistent periodic e v next) es new_world w refl at
