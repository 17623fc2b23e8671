-- ===== src/Timeouts/Examples.antt =====
-- Iterators of two items.
use ska_pst_lmc.Prelude.{ℕ, String, ◌≡◌, refl, true, false, some, List, [], ◌∷◌, ◌++◌}
use ska_pst_lmc.Effects.{returned, raised}
use ska_pst_lmc.Timeouts.{
  stop_iteration, timeout_error, exhausted, failing, TimeoutIterator, Event, call_next, get,
  run_out, check_abort, take_item, taking, step, steps, new_iterator,
}
use ska_pst_lmc.Timeouts.Order.{items, items_in_order}
use ska_pst_lmc.Timeouts.Ended.{ends_once, end_is_final}
use ska_pst_lmc.Timeouts.Blocked.{rounds, used_up, all_answers, every_item_then_end}
use ska_pst_lmc.Timeouts.Failing.{failure_blocks}

abbrev two : List ℕ
two = 1 ∷ 2 ∷ []

-- The second call waits in vain, and a third comes after it.
abbrev too_slow : List Event
too_slow =
    check_abort ∷ take_item ∷ call_next ∷ check_abort ∷ get ∷ call_next ∷ run_out ∷ call_next ∷ []

abbrev slow : TimeoutIterator ℕ String
slow = record (new_iterator (2 ∷ []) exhausted) {
  done = true;
  life = taking;
  answers = returned 1 ∷ raised timeout_error ∷ raised stop_iteration ∷ [];
}

items_in_order_example : items slow.answers ++ (items slow.queue ++ slow.source) ≡ two
unfolding step
items_in_order_example = items_in_order true two exhausted too_slow slow refl

end_is_final_example : ends_once slow.answers ≡ true
unfolding step
end_is_final_example = end_is_final true two exhausted too_slow slow refl

-- The thread fails before the consumer has called, and the consumer calls a fourth time.
abbrev quick : List Event
quick =
    check_abort ∷ take_item ∷ check_abort ∷ take_item ∷ check_abort ∷ take_item ∷ call_next ∷ get
    ∷ call_next ∷ get ∷ call_next ∷ get ∷ []

abbrev failed : TimeoutIterator ℕ String
failed = used_up (failing "lost") (all_answers two (failing "lost"))

abbrev lost : TimeoutIterator ℕ String
lost = record failed { waiting = true }

failure_blocks_example : lost.answers ≡ failed.answers
unfolding step
failure_blocks_example =
    failure_blocks two "lost" quick (call_next ∷ []) failed lost refl refl refl refl refl

every_item_then_end_example :
    steps {E = String} false (rounds two) (new_iterator two exhausted)
    ≡ some (used_up exhausted (all_answers two exhausted))
every_item_then_end_example = every_item_then_end false two exhausted
