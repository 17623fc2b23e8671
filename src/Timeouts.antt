-- ===== src/Timeouts.antt =====
-- The iterator with a time limit (src/ska_pst_lmc/util/timeout_iterator.py): the calls of `next` by one
-- consumer and the turns of the background thread that fills the queue, in any order the two allow. Each
-- step is atomic, and a call that waits is a step before the wait and one after it. The sleep of the
-- first call only delays it.
pub mod Order
pub mod Ended
pub mod Blocked
pub mod Failing
mod Examples
use ska_pst_lmc.Prelude.{
  Bool, true, false, ◌||◌, ◌&&◌, Option, none, some, List, [], ◌∷◌, ◌++◌, if◌then◌else◌,
}
use ska_pst_lmc.Effects.{Result, returned, raised}

-- `timeout_error` is the one that `__next__` raises; what the iterator raises is `other`, but for
-- StopIteration.
pub data Exception (E : Type 0) : Type 0 where
  stop_iteration timeout_error : Exception E
  other : E → Exception E

-- How the iterator ends, after its items.
pub data Ending (E : Type 0) : Type 0 where
  exhausted : Ending E
  failing : E → Ending E

-- Where the background thread is: before it looks at the event, in `next(self._iterator)`, and over.
pub data Life : Type 0 where
  checking taking over : Life

-- `source` is what the iterator has still to give, `waiting` is whether the consumer is in
-- `self._queue.get`, and `answers` is what the calls of `next` came to, the first first.
pub record TimeoutIterator (T E : Type 0) : Type 0 where
  pub source : List T
  pub ending : Ending E
  pub queue : List (Result (Exception E) T)
  pub done : Bool
  pub aborted : Bool
  pub life : Life
  pub waiting : Bool
  pub answers : List (Result (Exception E) T)

-- The consumer calls `next`, gets an item, and does not get one in time; someone sets the event, as
-- `__del__` does; the thread looks at the event, and asks the iterator.
pub data Event : Type 0 where
  call_next get run_out abort check_abort take_item : Event

abbrev pub exception_of : {E : Type 0} → Ending E → Exception E
exception_of exhausted = stop_iteration
exception_of (failing e) = other e

module _ {T E : Type 0} where
  abbrev pub new_iterator : List T → Ending E → TimeoutIterator T E
  new_iterator source ending = record {
    source = source;
    ending = ending;
    queue = [];
    done = false;
    aborted = false;
    life = checking;
    waiting = false;
    answers = [];
  }

  abbrev pub is_stop : Result (Exception E) T → Bool
  is_stop (returned x) = false
  is_stop (raised stop_iteration) = true
  is_stop (raised timeout_error) = false
  is_stop (raised (other e)) = false

  abbrev pub answer : Result (Exception E) T → TimeoutIterator T E → TimeoutIterator T E
  answer r w = record w { waiting = false; answers = w.answers ++ r ∷ [] }

  abbrev pub put : Result (Exception E) T → TimeoutIterator T E → TimeoutIterator T E
  put r w = record w { queue = w.queue ++ r ∷ [] }

  -- A turn of `__background_iterate`, from the test of the event on.
  abbrev pub look : TimeoutIterator T E → TimeoutIterator T E
  look w =
      if w.aborted
      then record (put (raised stop_iteration) w) { life = over }
      else record w { life = taking }

  abbrev pub take_next : TimeoutIterator T E → TimeoutIterator T E
  take_next w = elim w.source [
    | [] ↦ record (put (raised (exception_of w.ending)) w) { life = over }
    | x ∷ xs ↦ record (put (returned x) w) { source = xs; life = checking }
  ]

  -- `__next__`: the start, the item that it gets, and `Empty`.
  abbrev pub start_next : TimeoutIterator T E → TimeoutIterator T E
  start_next w =
      if w.done || w.aborted then answer (raised stop_iteration) w else record w { waiting = true }

  abbrev pub got :
      Result (Exception E) T
      → List (Result (Exception E) T)
      → TimeoutIterator T E
      → TimeoutIterator T E
  got r rest w = answer r (record w { queue = rest; done = w.done || is_stop r })

  abbrev pub empty : TimeoutIterator T E → TimeoutIterator T E
  empty w =
      answer (raised (if w.aborted then stop_iteration else timeout_error))
        (record w { done = true })

  -- A step; `none` where it cannot happen. `limited` is whether there is a time limit.
  unfoldable pub step : Bool → Event → TimeoutIterator T E → Option (TimeoutIterator T E)
  step limited call_next w = if w.waiting then none else some (start_next w)
  step limited get w =
      if w.waiting then elim w.queue [ [] ↦ none | r ∷ rest ↦ some (got r rest w) ] else none
  step limited run_out w =
      if w.waiting && limited then elim w.queue [ [] ↦ some (empty w) | r ∷ rest ↦ none ] else none
  step limited abort w = some (record w { aborted = true })
  step limited check_abort w = elim w.life [
    | checking ↦ some (look w)
    | taking ↦ none
    | over ↦ none
  ]
  step limited take_item w = elim w.life [
    | checking ↦ none
    | taking ↦ some (take_next w)
    | over ↦ none
  ]

  -- Steps, one after the other, that can all happen.
  abbrev pub steps : Bool → List Event → TimeoutIterator T E → Option (TimeoutIterator T E)
  steps limited [] w = some w
  steps limited (e ∷ es) w = elim (step limited e w) [ none ↦ none | some q ↦ steps limited es q ]
