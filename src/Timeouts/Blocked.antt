-- ===== src/Timeouts/Blocked.antt =====
-- A consumer that takes each item (src/ska_pst_lmc/util/timeout_iterator.py), and what it hears after
-- the iterator has failed.
use mathlib.Core.Path.{subst}
use mathlib.Core.Option.{some-injective}
use mathlib.Core.List.{append_assoc}
use ska_pst_lmc.Prelude.{
  ◌≡◌, refl, ap, ◌∙◌, inl, inr, Bool, true, false, some, List, [], ◌∷◌, ◌++◌, map, arith,
  Option-cases,
}
use ska_pst_lmc.Effects.{Result, returned, raised}
use ska_pst_lmc.Timeouts.{
  Exception, Ending, exhausted, failing, TimeoutIterator, Event, call_next, get, run_out, abort,
  check_abort, take_item, over, new_iterator, step, steps, exception_of, is_stop,
}

-- The thread asks the iterator, and the consumer calls `next` and gets what it put.
abbrev round : List Event
round = check_abort ∷ take_item ∷ call_next ∷ get ∷ []

-- A round for each item and one for the end.
abbrev pub rounds : {T : Type 0} → List T → List Event
rounds [] = round
rounds (x ∷ xs) = round ++ rounds xs

abbrev pub has_abort : List Event → Bool
has_abort [] = false
has_abort (abort ∷ es) = true
has_abort (call_next ∷ es) = has_abort es
has_abort (get ∷ es) = has_abort es
has_abort (run_out ∷ es) = has_abort es
has_abort (check_abort ∷ es) = has_abort es
has_abort (take_item ∷ es) = has_abort es

pub has_abort-rest :
    (e : Event) (es : List Event) → has_abort (e ∷ es) ≡ false → has_abort es ≡ false
has_abort-rest call_next es k = k
has_abort-rest get es k = k
has_abort-rest run_out es k = k
has_abort-rest abort es k = absurd (ground arith)
has_abort-rest check_abort es k = k
has_abort-rest take_item es k = k

pub has_abort-first :
    (e : Event) (es : List Event) → has_abort (e ∷ es) ≡ false → has_abort (e ∷ []) ≡ false
has_abort-first call_next es k = refl
has_abort-first get es k = refl
has_abort-first run_out es k = refl
has_abort-first abort es k = absurd (ground arith)
has_abort-first check_abort es k = refl
has_abort-first take_item es k = refl

module _ {T E : Type 0} where
  abbrev made : List T → Ending E → List (Result (Exception E) T) → TimeoutIterator T E
  made source ending answers = record (new_iterator source ending) { answers = answers }

  -- All is given, and `answers` have come back.
  abbrev pub used_up : Ending E → List (Result (Exception E) T) → TimeoutIterator T E
  used_up ending answers = record (new_iterator [] ending) {
    answers = answers;
    life = over;
    done = is_stop {T = T} (raised (exception_of ending));
  }

  abbrev pub all_answers : List T → Ending E → List (Result (Exception E) T)
  all_answers source ending = map returned source ++ raised (exception_of ending) ∷ []

  steps-append :
      (limited : Bool) (es fs : List Event) (w : TimeoutIterator T E) (q : TimeoutIterator T E)
      → steps limited es w ≡ some q
      → steps limited (es ++ fs) w ≡ steps limited fs q
  steps-append limited [] fs w q run = ap (steps limited fs) (some-injective w q run)
  steps-append limited (e ∷ es) fs w q run = elim (Option-cases (step limited e w)) [
    | inl stuck ↦ absurd (ground arith)
    | inr (next, moved) ↦ let k = steps-append limited es fs next q (ground arith) in ground arith
  ]

  round_item :
      (limited : Bool) (x : T) (xs : List T) (ending : Ending E)
      (answers : List (Result (Exception E) T))
      → steps limited round (made (x ∷ xs) ending answers)
        ≡ some (made xs ending (answers ++ returned x ∷ []))
  unfolding step
  round_item limited x xs ending answers = refl

  round_end :
      (limited : Bool) (ending : Ending E) (answers : List (Result (Exception E) T))
      → steps limited round (made [] ending answers)
        ≡ some (used_up ending (answers ++ raised (exception_of ending) ∷ []))
  unfolding step
  round_end limited exhausted answers = refl
  round_end limited (failing e) answers = refl

  rounds_from :
      (limited : Bool) (source : List T) (ending : Ending E)
      (answers : List (Result (Exception E) T))
      → steps limited (rounds source) (made source ending answers)
        ≡ some (used_up ending (answers ++ all_answers source ending))
  rounds_from limited [] ending answers = round_end limited ending answers
  rounds_from limited (x ∷ xs) ending answers =
      steps-append limited round (rounds xs) (made (x ∷ xs) ending answers)
        (made xs ending (answers ++ returned x ∷ [])) (round_item limited x xs ending answers)
      ∙ rounds_from limited xs ending (answers ++ returned x ∷ [])
      ∙ ap (λ a. some (used_up ending a))
          (append_assoc answers (returned x ∷ []) (all_answers xs ending))

  -- When the thread and a consumer take turns, the consumer hears every item of the iterator in order
  -- and then its end, StopIteration or the exception, and nothing is left.
  pub every_item_then_end :
      (limited : Bool) (source : List T) (ending : Ending E)
      → steps limited (rounds source) (new_iterator source ending)
        ≡ some (used_up ending (all_answers source ending))
  every_item_then_end limited source ending = rounds_from limited source ending []

  -- Nothing is left of an iterator that failed, and no call can be answered.
  pub record IsSpent (answers : List (Result (Exception E) T)) (w : TimeoutIterator T E)
      : Type 0 where
    pub nothing_queued : w.queue ≡ []
    pub open_still : w.done ≡ false
    pub unaborted : w.aborted ≡ false
    pub over_now : w.life ≡ over
    pub same_answers : w.answers ≡ answers

  step-IsSpent :
      (e : Event) (answers : List (Result (Exception E) T)) (w q : TimeoutIterator T E)
      → has_abort (e ∷ []) ≡ false
      → step false e w ≡ some q
      → IsSpent answers w
      → IsSpent answers q
  unfolding step
  step-IsSpent call_next answers w q none_aborts moved k =
      let n = k.nothing_queued in
      let o = k.open_still in
      let u = k.unaborted in
      let v = k.over_now in
      let s = k.same_answers in
      record {
        nothing_queued = ground arith;
        open_still = ground arith;
        unaborted = ground arith;
        over_now = ground arith;
        same_answers = ground arith;
      }
  step-IsSpent get answers w q none_aborts moved k =
      let n = k.nothing_queued in absurd (ground arith)
  step-IsSpent run_out answers w q none_aborts moved k = absurd (ground arith)
  step-IsSpent abort answers w q none_aborts moved k = absurd (ground arith)
  step-IsSpent check_abort answers w q none_aborts moved k =
      let n = k.over_now in absurd (ground arith)
  step-IsSpent take_item answers w q none_aborts moved k =
      let n = k.over_now in absurd (ground arith)

  pub steps-IsSpent :
      (es : List Event) (answers : List (Result (Exception E) T)) (w q : TimeoutIterator T E)
      → has_abort es ≡ false
      → steps false es w ≡ some q
      → IsSpent answers w
      → IsSpent answers q
  steps-IsSpent [] answers w q none_aborts run k =
      subst (IsSpent answers) (some-injective w q run) k
  steps-IsSpent (e ∷ es) answers w q none_aborts run k = elim (Option-cases (step false e w)) [
    | inl stuck ↦ absurd (ground arith)
    | inr (next, moved) ↦
        steps-IsSpent es answers next q (has_abort-rest e es none_aborts) (ground arith)
          (step-IsSpent e answers w next (has_abort-first e es none_aborts) moved k)
  ]
