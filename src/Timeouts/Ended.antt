-- ===== src/Timeouts/Ended.antt =====
-- What `next` raises at its end (src/ska_pst_lmc/util/timeout_iterator.py).
use ska_pst_lmc.Prelude.{
  ◌≡◌, refl, inl, inr, Bool, true, false, ◌||◌, ◌&&◌, some, List, [], ◌∷◌, ◌++◌, arith,
  if◌then◌else◌, Bool-cases,
}
use ska_pst_lmc.Effects.{Result, returned, raised}
use ska_pst_lmc.Timeouts.{
  Exception, stop_iteration, timeout_error, other, Ending, exhausted, failing, TimeoutIterator,
  Event, call_next, get, run_out, abort, check_abort, take_item, new_iterator, step, steps, is_stop,
}
use ska_pst_lmc.Timeouts.Order.{steps-keeps, List-cases}

module _ {T E : Type 0} where
  abbrev is_timeout : Result (Exception E) T → Bool
  is_timeout (raised timeout_error) = true
  is_timeout (raised stop_iteration) = false
  is_timeout (raised (other e)) = false
  is_timeout (returned x) = false

  abbrev has_end : List (Result (Exception E) T) → Bool
  has_end [] = false
  has_end (r ∷ rs) = is_stop r || is_timeout r || has_end rs

  abbrev has_timeout : List (Result (Exception E) T) → Bool
  has_timeout [] = false
  has_timeout (r ∷ rs) = is_timeout r || has_timeout rs

  abbrev only_stops : List (Result (Exception E) T) → Bool
  only_stops [] = true
  only_stops (r ∷ rs) = is_stop r && only_stops rs

  -- After the first StopIteration or TimeoutError there are only StopIterations.
  abbrev pub ends_once : List (Result (Exception E) T) → Bool
  ends_once [] = true
  ends_once (r ∷ rs) = if is_stop r || is_timeout r then only_stops rs else ends_once rs

  has_end-append :
      (rs : List (Result (Exception E) T)) (r : Result (Exception E) T)
      → has_end (rs ++ r ∷ []) ≡ (has_end rs || is_stop r || is_timeout r)
  has_end-append [] r = ground arith
  has_end-append (x ∷ rs) r = let k = has_end-append rs r in ground arith

  has_timeout-append :
      (rs : List (Result (Exception E) T)) (r : Result (Exception E) T)
      → has_timeout (rs ++ r ∷ []) ≡ (has_timeout rs || is_timeout r)
  has_timeout-append [] r = ground arith
  has_timeout-append (x ∷ rs) r = let k = has_timeout-append rs r in ground arith

  ends_once-first :
      (rs : List (Result (Exception E) T)) (r : Result (Exception E) T)
      → has_end rs ≡ false
      → ends_once (rs ++ r ∷ []) ≡ true
  ends_once-first [] r no_end = ground arith
  ends_once-first (x ∷ rs) r no_end = let k = ends_once-first rs r (ground arith) in ground arith

  only_stops-again :
      (rs : List (Result (Exception E) T))
      → only_stops rs ≡ true
      → only_stops (rs ++ raised stop_iteration ∷ []) ≡ true
  only_stops-again [] k = refl
  only_stops-again (x ∷ rs) k = let j = only_stops-again rs (ground arith) in ground arith

  ends_once-again :
      (rs : List (Result (Exception E) T))
      → ends_once rs ≡ true
      → ends_once (rs ++ raised stop_iteration ∷ []) ≡ true
  ends_once-again [] k = refl
  ends_once-again (x ∷ rs) k = elim (Bool-cases (is_stop x || is_timeout x)) [
    | inl last ↦ let j = only_stops-again rs (ground arith) in ground arith
    | inr more ↦ let j = ends_once-again rs (ground arith) in ground arith
  ]

  record IsOrderly (w : TimeoutIterator T E) : Type 0 where
    sane : ends_once w.answers ≡ true
    shut : has_end w.answers ≡ true → ((w.done || w.aborted) ≡ true) × (w.waiting ≡ false)
    untimed : has_timeout w.queue ≡ false

  step-IsOrderly :
      (limited : Bool) (e : Event) (w q : TimeoutIterator T E)
      → step limited e w ≡ some q
      → IsOrderly w
      → IsOrderly q
  unfolding step
  step-IsOrderly limited call_next w q moved k =
      let a = ends_once-again w.answers k.sane in
      let b = has_end-append w.answers (raised stop_iteration) in
      let s = k.shut in
      let u = k.untimed in
      record { sane = ground arith; shut = λ h. ground arith; untimed = ground arith }
  step-IsOrderly limited get w q moved k = elim (List-cases w.queue) [
    | inl none_there ↦ absurd (ground arith)
    | inr (r, rest, there) ↦
        let u = k.untimed in
        let running : has_end w.answers ≡ false = let s = k.shut in ground arith in
        let a = ends_once-first w.answers r running in
        let b = has_end-append w.answers r in
        record { sane = ground arith; shut = λ h. ground arith; untimed = ground arith }
  ]
  step-IsOrderly limited run_out w q moved k =
      let u = k.untimed in
      let running : has_end w.answers ≡ false = let s = k.shut in ground arith in
      let a = ends_once-first w.answers (raised stop_iteration) running in
      let a' = ends_once-first w.answers (raised timeout_error) running in
      record { sane = ground arith; shut = λ h. ground arith; untimed = ground arith }
  step-IsOrderly limited abort w q moved k =
      let a = k.sane in
      let s = k.shut in
      let u = k.untimed in
      record { sane = ground arith; shut = λ h. ground arith; untimed = ground arith }
  step-IsOrderly limited check_abort w q moved k =
      let a = k.sane in
      let s = k.shut in
      let u = k.untimed in
      let b = has_timeout-append w.queue (raised stop_iteration) in
      record { sane = ground arith; shut = λ h. ground arith; untimed = ground arith }
  step-IsOrderly limited take_item w q moved k =
      let a = k.sane in
      let s = k.shut in
      let u = k.untimed in
      elim (List-cases w.source) [
        | inl none_there ↦
            elim w.ending as (λ d. w.ending ≡ d → IsOrderly q) [
              | exhausted ↦ λ d.
                  let b = has_timeout-append w.queue (raised stop_iteration) in
                  record { sane = ground arith; shut = λ h. ground arith; untimed = ground arith }
              | failing x ↦ λ d.
                  let b = has_timeout-append w.queue (raised (other x)) in
                  record { sane = ground arith; shut = λ h. ground arith; untimed = ground arith }
            ]
              refl
        | inr (x, rest, there) ↦
            let b = has_timeout-append w.queue (returned x) in
            record { sane = ground arith; shut = λ h. ground arith; untimed = ground arith }
      ]

  -- Whatever the order of the steps: after a call of `next` has raised StopIteration or TimeoutError,
  -- each later call that comes back raises StopIteration.
  pub end_is_final :
      (limited : Bool) (source : List T) (ending : Ending E) (es : List Event)
      (q : TimeoutIterator T E)
      → steps limited es (new_iterator source ending) ≡ some q
      → ends_once q.answers ≡ true
  end_is_final limited source ending es q run =
      (steps-keeps IsOrderly limited (step-IsOrderly limited) es (new_iterator source ending) q run
        (record { sane = refl; shut = λ h. absurd (ground arith); untimed = refl })).sane
