-- ===== src/Job/Device/Runs.antt =====
-- Whole runs of the executor of device commands (src/ska_pst_lmc/job/device_task_executor.py).
use ska_pst_lmc.Prelude.{
  ℕ, String, ◌≡◌, refl, ap, ◌∙◌, ◌⊎◌, true, false, Option, none, some, List, [], ◌∷◌, ◌++◌, Key,
  lookup, string_key, nat_beq_iff, arith, Option-cases, inl, inr,
}
use ska_pst_lmc.Job.Device.{
  Answer, Input, task, event, DeviceCommandTaskExecutor, new_executor, start, handle, handle_all,
  handle_task, handle_subscription_event, subscribed,
}
use ska_pst_lmc.Job.Device.Signals.{
  answered, goes_on, ended, handle_task_lem, handle_subscription_event_lem,
}
use ska_pst_lmc.Job.Device.Invariant.{
  are_apart, Inv, Inv-same, Inv-skip, Inv-signal, Inv-wait, Inv-end,
}

module _ {D E R : Type 0} ⦃e : Key D⦄ (runtime_error : String → E)
    (json_loads : String → Option R) where
  handle_task-Inv :
      (r : ℕ) (d : D) (s : Option E) (a : Answer E) (is : List (Input D E))
      (x : DeviceCommandTaskExecutor D E R)
      → Inv (task r d s a ∷ is) x
      → Inv is (handle_task runtime_error json_loads r d none a x)
  handle_task-Inv r d s a is x v =
      let lem = handle_task_lem runtime_error json_loads r d a x in
      elim (Option-cases (goes_on a)) [
        | inl over ↦
            Inv-signal r d s a is x _ (answered runtime_error a (x.contexts r)) (λ j. (lem j "").0)
              (λ k. (lem 0 k).1 ∙ rw over) v
        | inr (own, on) ↦
            Inv-wait r d s a is x _ own (λ j. (lem j "").0 ∙ ground (arith, nat_beq_iff r j))
              (λ k. (lem 0 k).1 ∙ rw on) v
      ]

  handle_event-Inv :
      (id msg : String) (is : List (Input D E)) (x : DeviceCommandTaskExecutor D E R)
      → Inv (event id msg ∷ is) x
      → Inv is (handle_subscription_event runtime_error json_loads id msg x)
  handle_event-Inv id msg is x v =
      let (same, ends) = handle_subscription_event_lem runtime_error json_loads id msg x in
      elim (Option-cases (lookup id x.task_context_map)) [
        | inl absent ↦ rw (same absent) (Inv-skip (event id msg) is x v)
        | inr (r, there) ↦
            Inv-end id msg is x _ r (ended runtime_error json_loads msg (x.contexts r)) there
              (ends r there).0 (ends r there).1 v
      ]

  -- A task is handled as if its subscription succeeded, or it stops the loop, or it is not taken.
  handle_task-cases :
      (r : ℕ) (d : D) (s : Option E) (a : Answer E) (x : DeviceCommandTaskExecutor D E R)
      → (handle runtime_error json_loads x (task r d s a)
          ≡ handle_task runtime_error json_loads r d none a x)
        ⊎ (handle runtime_error json_loads x (task r d s a) ≡ record x { looping = false })
        ⊎ (handle runtime_error json_loads x (task r d s a) ≡ x)
  unfolding handle
  handle_task-cases r d s a x = ground arith

  handle_event :
      (id msg : String) (x : DeviceCommandTaskExecutor D E R)
      → handle runtime_error json_loads x (event id msg)
        ≡ handle_subscription_event runtime_error json_loads id msg x
  unfolding handle
  handle_event id msg x = refl

  handle-Inv :
      (i : Input D E) (is : List (Input D E)) (x : DeviceCommandTaskExecutor D E R)
      → Inv (i ∷ is) x
      → Inv is (handle runtime_error json_loads x i)
  handle-Inv (task r d s a) is x v = elim (handle_task-cases r d s a x) [
    | inl h ↦ rw h (handle_task-Inv r d s a is x v)
    | inr (inl h) ↦ rw h (Inv-same is x _ (λ j. refl) (λ k. refl) (Inv-skip (task r d s a) is x v))
    | inr (inr h) ↦ rw h (Inv-skip (task r d s a) is x v)
  ]
  handle-Inv (event id msg) is x v = rw handle_event (handle_event-Inv id msg is x v)

  -- What is signalled stays as it is.
  handle_keeps :
      (i : Input D E) (is : List (Input D E)) (x : DeviceCommandTaskExecutor D E R) (ref : ℕ)
      → Inv (i ∷ is) x
      → (x.contexts ref).evt ≡ true
      → (handle runtime_error json_loads x i).contexts ref ≡ x.contexts ref
  handle_keeps (task r d s a) is x ref v set = elim (handle_task-cases r d s a x) [
    | inl h ↦ rw h (
        (handle_task_lem runtime_error json_loads r d a x ref "").0
        ∙ ground (arith, v.to_come r, nat_beq_iff r r, nat_beq_iff r ref))
    | inr (inl h) ↦ rw h
    | inr (inr h) ↦ rw h
  ]
  handle_keeps (event id msg) is x ref v set =
      let (same, ends) = handle_subscription_event_lem runtime_error json_loads id msg x in
      elim (Option-cases (lookup id x.task_context_map)) [
        | inl absent ↦ rw (handle_event, same absent)
        | inr (r, there) ↦
            rw handle_event
              ((ends r there).0 ref ∙ ground (arith, v.unsignalled id r there, nat_beq_iff r ref))
      ]

  handle_all-Inv :
      (is js : List (Input D E)) (x : DeviceCommandTaskExecutor D E R)
      → Inv (is ++ js) x
      → Inv js (handle_all runtime_error json_loads x is)
  unfolding handle_all
  handle_all-Inv [] js x v = v
  handle_all-Inv (i ∷ is) js x v =
      handle_all-Inv is js (handle runtime_error json_loads x i) (handle-Inv i (is ++ js) x v)

  handle_all_keeps :
      (is : List (Input D E)) (x : DeviceCommandTaskExecutor D E R) (ref : ℕ)
      → Inv is x
      → (x.contexts ref).evt ≡ true
      → (handle_all runtime_error json_loads x is).contexts ref ≡ x.contexts ref
  unfolding handle_all
  handle_all_keeps [] x ref v set = refl
  handle_all_keeps (i ∷ is) x ref v set =
      let keeps = handle_keeps i is x ref v set in
      handle_all_keeps is (handle runtime_error json_loads x i) ref (handle-Inv i is x v)
        (rw keeps set)
      ∙ keeps

  start-Inv :
      (is : List (Input D E))
      → are_apart is ≡ true
      → Inv is (start {D = D} {E = E} {R = R} new_executor)
  unfolding start
  start-Inv is apart = record {
    apart = apart;
    unsignalled = λ k ref h. cc;
    not_again = λ k ref h. cc;
    one_id = λ k j ref h i. cc;
    to_come = λ ref h. refl;
  }

  -- From the start, whatever the devices answer and in whatever order tasks and events come, a
  -- context that is signalled is never signalled again, if no two tasks share a context.
  pub signalled_once :
      (is js : List (Input D E)) (ref : ℕ)
      → are_apart (is ++ js) ≡ true
      → let x = handle_all runtime_error json_loads (start new_executor) is in
        (x.contexts ref).evt ≡ true
        → (handle_all runtime_error json_loads x js).contexts ref ≡ x.contexts ref
  signalled_once is js ref apart set =
      handle_all_keeps js _ ref (handle_all-Inv is js _ (start-Inv (is ++ js) apart)) set

  stopped-handle :
      (i : Input D E) (x : DeviceCommandTaskExecutor D E R)
      → x.looping ≡ false
      → x.task_context_map ≡ []
      → handle runtime_error json_loads x i ≡ x
  unfolding handle
  stopped-handle (task r d s a) x l m = ground arith
  stopped-handle (event id msg) x l m =
      let absent : lookup id x.task_context_map ≡ none = rw (m, lookup) in ground arith

  stopped_keeps :
      (is : List (Input D E)) (x : DeviceCommandTaskExecutor D E R)
      → x.looping ≡ false
      → x.task_context_map ≡ []
      → handle_all runtime_error json_loads x is ≡ x
  unfolding handle_all
  stopped_keeps [] x l m = refl
  stopped_keeps (i ∷ is) x l m = rw (stopped-handle i x l m) (stopped_keeps is x l m)

  handle-raised :
      (x : DeviceCommandTaskExecutor D E R) (ref : ℕ) (device : D) (raised : E) (answer : Answer E)
      → x.looping ≡ true
      → subscribed runtime_error json_loads device x.result_subscriptions ≡ false
      → handle runtime_error json_loads x (task ref device (some raised) answer)
        ≡ record x { looping = false }
  unfolding handle
  handle-raised x ref device raised answer loops new = ground arith

  -- When subscribing to a new device raises while no command is waited for, the queue is read no
  -- more: neither this task nor any later one is signalled, whatever else arrives.
  pub subscription_failure_stops :
      (x : DeviceCommandTaskExecutor D E R) (ref : ℕ) (device : D) (raised : E) (answer : Answer E)
      (is : List (Input D E)) (j : ℕ)
      → x.task_context_map ≡ []
      → x.looping ≡ true
      → subscribed runtime_error json_loads device x.result_subscriptions ≡ false
      → (handle_all runtime_error json_loads x (task ref device (some raised) answer ∷ is)).contexts
          j
        ≡ x.contexts j
  unfolding handle_all
  subscription_failure_stops x ref device raised answer is j empty_map loops new =
      ap (λ y. (handle_all runtime_error json_loads y is).contexts j)
        (handle-raised x ref device raised answer loops new)
      ∙ ap (λ y. y.contexts j) (stopped_keeps is (record x { looping = false }) refl empty_map)
