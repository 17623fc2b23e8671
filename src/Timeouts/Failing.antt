-- ===== src/Timeouts/Failing.antt =====
-- What comes after the exception of an iterator that fails (src/ska_pst_lmc/util/timeout_iterator.py).
use mathlib.Core.Path.{subst}
use mathlib.Core.Option.{some-injective}
use ska_pst_lmc.Prelude.{
  ◌≡◌, sym, refl, ap, ◌∙◌, inl, inr, Bool, true, false, ◌||◌, some, List, [], ◌∷◌, ◌++◌, arith,
  Option-cases, Bool-cases,
}
use ska_pst_lmc.Effects.{Result, returned, raised}
use ska_pst_lmc.Timeouts.{
  Exception, stop_iteration, timeout_error, other, failing, TimeoutIterator, Event, call_next, get,
  run_out, abort, check_abort, take_item, Life, checking, taking, over, new_iterator, step, steps,
  is_stop,
}
use ska_pst_lmc.Timeouts.Order.{List-cases}
use ska_pst_lmc.Timeouts.Blocked.{
  has_abort, has_abort-rest, has_abort-first, IsSpent, steps-IsSpent,
}

abbrev is_over : Life → Bool
is_over over = true
is_over checking = false
is_over taking = false

module _ {T E : Type 0} where
  abbrev is_failure : Result (Exception E) T → Bool
  is_failure (raised (other e)) = true
  is_failure (raised stop_iteration) = false
  is_failure (raised timeout_error) = false
  is_failure (returned x) = false

  -- The exception of the iterator is among the answers.
  abbrev pub has_failed : List (Result (Exception E) T) → Bool
  has_failed [] = false
  has_failed (r ∷ rs) = is_failure r || has_failed rs

  -- Items, and at most one exception, the iterator's, which is the last.
  abbrev fails_last : List (Result (Exception E) T) → Bool
  fails_last [] = true
  fails_last (returned x ∷ rs) = fails_last rs
  fails_last (raised stop_iteration ∷ rs) = false
  fails_last (raised timeout_error ∷ rs) = false
  fails_last (raised (other e) ∷ []) = true
  fails_last (raised (other e) ∷ _ ∷ rs) = false

  abbrev is_empty : List (Result (Exception E) T) → Bool
  is_empty [] = true
  is_empty (r ∷ rs) = false

  has_failed-append :
      (rs : List (Result (Exception E) T)) (r : Result (Exception E) T)
      → has_failed (rs ++ r ∷ []) ≡ (has_failed rs || is_failure r)
  has_failed-append [] r = ground arith
  has_failed-append (x ∷ rs) r = let k = has_failed-append rs r in ground arith

  fails_last-item :
      (rs : List (Result (Exception E) T)) (x : T)
      → fails_last rs ≡ true
      → has_failed rs ≡ false
      → fails_last (rs ++ returned x ∷ []) ≡ true
  fails_last-item [] x k n = refl
  fails_last-item (returned y ∷ rs) x k n = fails_last-item rs x k n
  fails_last-item (raised stop_iteration ∷ rs) x k n = absurd (ground arith)
  fails_last-item (raised timeout_error ∷ rs) x k n = absurd (ground arith)
  fails_last-item (raised (other e) ∷ rs) x k n = absurd (ground arith)

  fails_last-end :
      (rs : List (Result (Exception E) T)) (e : E)
      → fails_last rs ≡ true
      → has_failed rs ≡ false
      → fails_last (rs ++ raised (other e) ∷ []) ≡ true
  fails_last-end [] e k n = refl
  fails_last-end (returned y ∷ rs) e k n = fails_last-end rs e k n
  fails_last-end (raised stop_iteration ∷ rs) e k n = absurd (ground arith)
  fails_last-end (raised timeout_error ∷ rs) e k n = absurd (ground arith)
  fails_last-end (raised (other y) ∷ rs) e k n = absurd (ground arith)

  fails_last-first :
      (r : Result (Exception E) T) (rs : List (Result (Exception E) T))
      → fails_last (r ∷ rs) ≡ true
      → (is_stop r ≡ false) × (fails_last rs ≡ true) × (is_failure r ≡ true → rs ≡ [])
  fails_last-first (returned x) rs k = (refl, k, λ e. absurd (ground arith))
  fails_last-first (raised stop_iteration) rs k = absurd (ground arith)
  fails_last-first (raised timeout_error) rs k = absurd (ground arith)
  fails_last-first (raised (other e)) [] k = (refl, refl, λ y. refl)
  fails_last-first (raised (other e)) (_ ∷ rs) k = absurd (ground arith)

  record IsFailing (x : E) (w : TimeoutIterator T E) : Type 0 where
    unaborted : w.aborted ≡ false
    open_still : w.done ≡ false
    same_ending : w.ending ≡ failing x
    failure_last : fails_last w.queue ≡ true
    before_end :
        is_over w.life ≡ false → (has_failed w.answers ≡ false) × (has_failed w.queue ≡ false)
    after_failure : has_failed w.answers ≡ true → (w.queue ≡ []) × (is_over w.life ≡ true)

  step-IsFailing :
      (x : E) (e : Event) (w q : TimeoutIterator T E)
      → has_abort (e ∷ []) ≡ false
      → step false e w ≡ some q
      → IsFailing x w
      → IsFailing x q
  unfolding step
  step-IsFailing x call_next w q calm moved k =
      let u = k.unaborted in
      let o = k.open_still in
      let s = k.same_ending in
      let l = k.failure_last in
      let b = k.before_end in
      let a = k.after_failure in
      record {
        unaborted = ground arith;
        open_still = ground arith;
        same_ending = ground arith;
        failure_last = ground arith;
        before_end = λ h. ground arith;
        after_failure = λ h. ground arith;
      }
  step-IsFailing x get w q calm moved k =
      let u = k.unaborted in
      let o = k.open_still in
      let s = k.same_ending in
      let b = k.before_end in
      let a = k.after_failure in
      elim (List-cases w.queue) [
        | inl none_there ↦ absurd (ground arith)
        | inr (r, rest, there) ↦
            let l : fails_last (r ∷ rest) ≡ true = ap fails_last (sym there) ∙ k.failure_last in
            let (not_stop, last, at_end) = fails_last-first r rest l in
            let f = has_failed-append w.answers r in
            record {
              unaborted = ground arith;
              open_still = ground arith;
              same_ending = ground arith;
              failure_last = ground arith;
              before_end = λ h. ground arith;
              after_failure = λ h. elim (Bool-cases (is_over w.life)) [
                | inl ended ↦ ground arith
                | inr going ↦ ground arith
              ];
            }
      ]
  step-IsFailing x run_out w q calm moved k = absurd (ground arith)
  step-IsFailing x abort w q calm moved k = absurd (ground arith)
  step-IsFailing x check_abort w q calm moved k =
      let u = k.unaborted in
      let o = k.open_still in
      let s = k.same_ending in
      let l = k.failure_last in
      let b = k.before_end in
      let a = k.after_failure in
      record {
        unaborted = ground arith;
        open_still = ground arith;
        same_ending = ground arith;
        failure_last = ground arith;
        before_end = λ h. ground arith;
        after_failure = λ h. ground arith;
      }
  step-IsFailing x take_item w q calm moved k =
      let u = k.unaborted in
      let o = k.open_still in
      let s = k.same_ending in
      let l = k.failure_last in
      let b = k.before_end in
      let a = k.after_failure in
      elim (List-cases w.source) [
        | inl none_there ↦
            let f = fails_last-end w.queue x in
            record {
              unaborted = ground arith;
              open_still = ground arith;
              same_ending = ground arith;
              failure_last = ground arith;
              before_end = λ h. ground arith;
              after_failure = λ h. ground arith;
            }
        | inr (y, rest, there) ↦
            let f = fails_last-item w.queue y in
            let g = has_failed-append w.queue (returned y) in
            record {
              unaborted = ground arith;
              open_still = ground arith;
              same_ending = ground arith;
              failure_last = ground arith;
              before_end = λ h. ground arith;
              after_failure = λ h. ground arith;
            }
      ]

  steps-IsFailing :
      (x : E) (es : List Event) (w q : TimeoutIterator T E)
      → has_abort es ≡ false
      → steps false es w ≡ some q
      → IsFailing x w
      → IsFailing x q
  steps-IsFailing x [] w q calm run k = subst (IsFailing x) (some-injective w q run) k
  steps-IsFailing x (e ∷ es) w q calm run k = elim (Option-cases (step false e w)) [
    | inl stuck ↦ absurd (ground arith)
    | inr (next, moved) ↦
        steps-IsFailing x es next q (has_abort-rest e es calm) (ground arith)
          (step-IsFailing x e w next (has_abort-first e es calm) moved k)
  ]

  over-IsSpent :
      (x : E) (w : TimeoutIterator T E)
      → IsFailing x w
      → has_failed w.answers ≡ true
      → IsSpent w.answers w
  over-IsSpent x w k failed =
      let (empty, ended) = k.after_failure failed in
      record {
        nothing_queued = empty;
        open_still = k.open_still;
        unaborted = k.unaborted;
        over_now = ground arith;
        same_answers = refl;
      }

  -- When there is no time limit and the event is not set, in every interleaving: after a call of `next`
  -- has raised the exception of the iterator, whatever is called and done later, no call of `next` comes
  -- back.
  pub failure_blocks :
      (source : List T) (x : E) (es later : List Event) (w q : TimeoutIterator T E)
      → has_abort es ≡ false
      → steps false es (new_iterator source (failing x)) ≡ some w
      → has_failed w.answers ≡ true
      → has_abort later ≡ false
      → steps false later w ≡ some q
      → q.answers ≡ w.answers
  failure_blocks source x es later w q calm run failed calm_later run_later =
      let start : IsFailing x (new_iterator source (failing x)) = record {
        unaborted = refl;
        open_still = refl;
        same_ending = refl;
        failure_last = refl;
        before_end = λ h. (refl, refl);
        after_failure = λ h. absurd (ground arith);
      } in
      let k = steps-IsFailing x es (new_iterator source (failing x)) w calm run start in
      (steps-IsSpent later w.answers w q calm_later run_later
        (over-IsSpent x w k failed)).same_answers
