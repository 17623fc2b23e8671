-- ===== src/Timeouts/Order.antt =====
-- What the calls of `next` come to (src/ska_pst_lmc/util/timeout_iterator.py).
use mathlib.Core.Path.{subst}
use mathlib.Core.Option.{some-injective}
use mathlib.Core.List.{append_assoc, append-nil}
use ska_pst_lmc.Prelude.{
  ◌≡◌, refl, ap, ◌∙◌, ◌⊎◌, inl, inr, Bool, some, List, [], ◌∷◌, ◌++◌, arith, Option-cases,
}
use ska_pst_lmc.Effects.{Result, returned, raised}
use ska_pst_lmc.Timeouts.{
  Exception, stop_iteration, timeout_error, Ending, TimeoutIterator, Event, call_next, get, run_out,
  abort, check_abort, take_item, new_iterator, step, steps, exception_of, got,
}

pub List-cases :
    {A : Type 0} (xs : List A) → (xs ≡ []) ⊎ ((x : A) × (rest : List A) × (xs ≡ x ∷ rest))
List-cases [] = inl refl
List-cases (x ∷ xs) = inr (x, xs, refl)

module _ {T E : Type 0} where
  -- What every step keeps, every run keeps.
  pub steps-keeps :
      (P : TimeoutIterator T E → Type 0) (limited : Bool)
      → ((e : Event) (w q : TimeoutIterator T E) → step limited e w ≡ some q → P w → P q)
      → (es : List Event) (w q : TimeoutIterator T E) → steps limited es w ≡ some q
      → P w
      → P q
  steps-keeps P limited keeps [] w q run p = subst P (some-injective w q run) p
  steps-keeps P limited keeps (e ∷ es) w q run p = elim (Option-cases (step limited e w)) [
    | inl stuck ↦ absurd (ground arith)
    | inr (next, moved) ↦
        steps-keeps P limited keeps es next q (ground arith) (keeps e w next moved p)
  ]

  abbrev pub items : List (Result (Exception E) T) → List T
  items [] = []
  items (returned x ∷ rs) = x ∷ items rs
  items (raised e ∷ rs) = items rs

  items-append : (rs ss : List (Result (Exception E) T)) → items (rs ++ ss) ≡ items rs ++ items ss
  items-append [] ss = refl
  items-append (returned x ∷ rs) ss = ap (λ l. x ∷ l) (items-append rs ss)
  items-append (raised e ∷ rs) ss = items-append rs ss

  abbrev content : TimeoutIterator T E → List T
  content w = items w.answers ++ (items w.queue ++ w.source)

  got-content :
      (r : Result (Exception E) T) (rest : List (Result (Exception E) T)) (w : TimeoutIterator T E)
      → w.queue ≡ r ∷ rest
      → content (got r rest w) ≡ content w
  got-content (returned x) rest w q =
      let i = items-append w.answers (returned x ∷ []) in
      let j = append_assoc (items w.answers) (x ∷ []) (items rest ++ w.source) in ground arith
  got-content (raised e) rest w q =
      let i = items-append w.answers (raised e ∷ []) in
      let j = append-nil (items w.answers) in ground arith

  step-content :
      (limited : Bool) (e : Event) (w q : TimeoutIterator T E)
      → step limited e w ≡ some q
      → content q ≡ content w
  unfolding step
  step-content limited call_next w q moved =
      let i = items-append w.answers (raised stop_iteration ∷ []) in
      let j = append-nil (items w.answers) in ground arith
  step-content limited get w q moved = elim (List-cases w.queue) [
    | inl none_there ↦ absurd (ground arith)
    | inr (r, rest, there) ↦ let k = got-content r rest w there in ground arith
  ]
  step-content limited run_out w q moved =
      let i = items-append w.answers (raised stop_iteration ∷ []) in
      let i' = items-append w.answers (raised timeout_error ∷ []) in
      let j = append-nil (items w.answers) in ground arith
  step-content limited abort w q moved = ground arith
  step-content limited check_abort w q moved =
      let i = items-append w.queue (raised stop_iteration ∷ []) in
      let j = append-nil (items w.queue) in ground arith
  step-content limited take_item w q moved =
      let i = items-append w.queue (raised (exception_of w.ending) ∷ []) in
      let j = append-nil (items w.queue) in
      let i' = λ (x : T). items-append w.queue (returned x ∷ []) in
      elim (List-cases w.source) [
        | inl none_there ↦ ground arith
        | inr (x, rest, there) ↦
            let k = i' x in let a = append_assoc (items w.queue) (x ∷ []) rest in ground arith
      ]

  -- Whatever the order of the steps: what the calls of `next` have returned, in order, then what waits
  -- in the queue and then what the iterator has still to give are the items of the iterator.
  pub items_in_order :
      (limited : Bool) (source : List T) (ending : Ending E) (es : List Event)
      (q : TimeoutIterator T E)
      → steps limited es (new_iterator source ending) ≡ some q
      → items q.answers ++ (items q.queue ++ q.source) ≡ source
  items_in_order limited source ending es q run =
      steps-keeps (λ w. content w ≡ source) limited
        (λ e w n moved k. step-content limited e w n moved ∙ k) es (new_iterator source ending) q
        run refl
