-- ===== src/Proxy/Sound.antt =====
-- What the proxy and its subscriptions keep, whatever is called in turn (src/ska_pst_lmc/device_proxy.py).
use mathlib.Core.Path.{subst}
use ska_pst_lmc.Prelude.{
  ℕ, String, ◌≡◌, sym, refl, ◌⊎◌, inl, inr, true, false, none, some, List, [], ◌∷◌, ◌++◌, length,
  get_elem?, set, lookup, insert, erase, string_key, arith, Option-cases, Bool-cases,
}
use ska_pst_lmc.Effects.{Result, returned, raised, Result-cases}
use ska_pst_lmc.Proxy.{
  read_attribute, ChangeEventSubscription, PstDeviceProxy, new_proxy, EventData, error_event,
  empty_event, value_event, deliver, deliver_all, callbacks_of, with_callback, new_subscription,
  subscribe_change_event, unsubscribe_change_event, unsubscribe, event_callback,
}
use ska_pst_lmc.Proxy.Objects.{IsSound, append-IsSound, create-IsSound, drop-IsSound}

-- The calls of a proxy, with what Tango's calls come to.
pub data Operation (V E : Type 0) : Type 0 where
  subscribes : String → ℕ → Result E ℕ → Result E V → Operation V E
  unsubscribes : ℕ → Operation V E
  receives : String → EventData V → Result E V → Operation V E

module _ {V E : Type 0} where
  abbrev pub perform : Operation V E → PstDeviceProxy V → PstDeviceProxy V
  perform (subscribes attribute_name callback tango_id value) p =
      (subscribe_change_event attribute_name callback tango_id value p).1
  perform (unsubscribes h) p = unsubscribe h p
  perform (receives attribute_name event value) p = (event_callback attribute_name event value p).1

  abbrev pub perform_all : List (Operation V E) → PstDeviceProxy V → PstDeviceProxy V
  perform_all [] p = p
  perform_all (op ∷ ops) p = perform_all ops (perform op p)

module _ {V : Type 0} where
  deliver_all-keeps :
      (cs : List ℕ) (v : V) (p : PstDeviceProxy V)
      → ((deliver_all cs v p).subscriptions ≡ p.subscriptions)
        × ((deliver_all cs v p).objects ≡ p.objects)
  deliver_all-keeps [] v p = (refl, refl)
  deliver_all-keeps (c ∷ cs) v p = deliver_all-keeps cs v (deliver c v p)

  abbrev pub IsKept : PstDeviceProxy V → Type 0
  IsKept p = IsSound p.subscriptions p.objects

  same-IsKept :
      (subs : List (String × ℕ)) (objects : List ChangeEventSubscription) (q : PstDeviceProxy V)
      → q.subscriptions ≡ subs
      → q.objects ≡ objects
      → IsSound subs objects
      → IsKept q
  same-IsKept subs objects q s o k =
      subst (λ x. IsSound q.subscriptions x) (sym o) (subst (λ x. IsSound x objects) (sym s) k)

  pub unsubscribe_lem :
      (h : ℕ) (p : PstDeviceProxy V) (o : ChangeEventSubscription)
      → get_elem? p.objects h ≡ some o
      → o.subscribed ≡ true
      → ((unsubscribe h p).subscriptions ≡ erase o.attribute_name p.subscriptions)
        × ((unsubscribe h p).objects
            ≡ set p.objects h (record o { subscribed = false; callbacks = [] }))
  unfolding unsubscribe unsubscribe_change_event
  unsubscribe_lem h p o there on = ground arith

  unsubscribe_off :
      (h : ℕ) (p : PstDeviceProxy V)
      → (get_elem? p.objects h ≡ none)
        ⊎ ((o : ChangeEventSubscription) × (get_elem? p.objects h ≡ some o)
            × (o.subscribed ≡ false))
      → unsubscribe h p ≡ p
  unfolding unsubscribe unsubscribe_change_event
  unsubscribe_off h p off = ground arith

  unsubscribe-IsKept : (h : ℕ) (p : PstDeviceProxy V) → IsKept p → IsKept (unsubscribe h p)
  unsubscribe-IsKept h p k = elim (Option-cases (get_elem? p.objects h)) [
    | inl absent ↦ subst IsKept (sym (unsubscribe_off h p (inl absent))) k
    | inr (o, there) ↦ elim (Bool-cases o.subscribed) [
      | inr off ↦ subst IsKept (sym (unsubscribe_off h p (inr (o, there, off)))) k
      | inl on ↦
          let (s, e) = unsubscribe_lem h p o there on in
          same-IsKept _ _ (unsubscribe h p) s e
            (drop-IsSound p.subscriptions p.objects k h o there on)
    ]
  ]

module _ (V : Type 0) where
  new-IsKept : IsKept {V = V} new_proxy
  new-IsKept = record {
    held = λ a h e. absurd (ground arith);
    live = λ h o e s. absurd (ground arith);
    silent = λ h o e s. absurd (ground arith);
  }

module _ {V E : Type 0} where
  pub subscribe_again :
      (a : String) (c : ℕ) (tango_id : Result E ℕ) (value : Result E V) (p : PstDeviceProxy V)
      (h : ℕ) (o : ChangeEventSubscription)
      → lookup a p.subscriptions ≡ some h
      → get_elem? p.objects h ≡ some o
      → let q = (subscribe_change_event a c tango_id value p).1 in
        (q.subscriptions ≡ p.subscriptions) × (q.objects ≡ set p.objects h (with_callback c o))
  unfolding subscribe_change_event
  subscribe_again a c tango_id value p h o found there = ground arith

  pub subscribe_first :
      (a : String) (c id : ℕ) (value : Result E V) (p : PstDeviceProxy V)
      → lookup a p.subscriptions ≡ none
      → let q = (subscribe_change_event {E = E} a c (returned id) value p).1 in
        (q.subscriptions ≡ insert a (length p.objects) p.subscriptions)
        × (q.objects ≡ p.objects ++ new_subscription a c id ∷ [])
  unfolding subscribe_change_event
  subscribe_first a c id value p absent = ground arith

  subscribe_fails :
      (a : String) (c : ℕ) (x : E) (value : Result E V) (p : PstDeviceProxy V)
      → lookup a p.subscriptions ≡ none
      → let q = (subscribe_change_event a c (raised x) value p).1 in
        (q.subscriptions ≡ p.subscriptions) × (q.objects ≡ p.objects)
  unfolding subscribe_change_event
  subscribe_fails a c x value p absent = ground arith

  subscribe-IsKept :
      (a : String) (c : ℕ) (tango_id : Result E ℕ) (value : Result E V) (p : PstDeviceProxy V)
      → IsKept p
      → IsKept (subscribe_change_event a c tango_id value p).1
  subscribe-IsKept a c tango_id value p k = elim (Option-cases (lookup a p.subscriptions)) [
    | inr (h, found) ↦
        let (o, there, name, on) = k.held a h found in
        let (s, e) = subscribe_again a c tango_id value p h o found there in
        same-IsKept _ _ (subscribe_change_event a c tango_id value p).1 s e
          (append-IsSound p.subscriptions p.objects k h c o there on)
    | inl absent ↦ elim (Result-cases tango_id) [
      | inl (id, answers) ↦
          subst (λ r. IsKept (subscribe_change_event a c r value p).1) (sym answers)
            (let (s, e) = subscribe_first a c id value p absent in
              same-IsKept _ _ (subscribe_change_event {E = E} a c (returned id) value p).1 s e
                (create-IsSound p.subscriptions p.objects k a c id absent))
      | inr (x, answers) ↦
          subst (λ r. IsKept (subscribe_change_event a c r value p).1) (sym answers)
            (let (s, e) = subscribe_fails a c x value p absent in
              same-IsKept _ _ (subscribe_change_event a c (raised x) value p).1 s e k)
    ]
  ]

  event-IsKept :
      (a : String) (event : EventData V) (value : Result E V) (p : PstDeviceProxy V)
      → IsKept p
      → IsKept (event_callback a event value p).1
  unfolding event_callback
  event-IsKept a error_event value p k = k
  event-IsKept a empty_event (raised e) p k = k
  event-IsKept a empty_event (returned v) p k =
      let (s, o) =
        deliver_all-keeps (callbacks_of a p) v (record p { calls = read_attribute a ∷ p.calls }) in
      same-IsKept _ _
        (deliver_all (callbacks_of a p) v (record p { calls = read_attribute a ∷ p.calls })) s o k
  event-IsKept a (value_event v) value p k =
      let (s, o) = deliver_all-keeps (callbacks_of a p) v p in
      same-IsKept _ _ (deliver_all (callbacks_of a p) v p) s o k

  perform_all-IsKept :
      (ops : List (Operation V E)) (p : PstDeviceProxy V) → IsKept p → IsKept (perform_all ops p)
  perform_all-IsKept [] p k = k
  perform_all-IsKept (subscribes a c tango_id value ∷ ops) p k =
      perform_all-IsKept ops _ (subscribe-IsKept a c tango_id value p k)
  perform_all-IsKept (unsubscribes h ∷ ops) p k =
      perform_all-IsKept ops _ (unsubscribe-IsKept h p k)
  perform_all-IsKept (receives a event value ∷ ops) p k =
      perform_all-IsKept ops _ (event-IsKept a event value p k)

  -- Whatever is called of a new proxy and its subscriptions, one call after the other, and whatever
  -- Tango's calls come to: a subscription object that is
  -- subscribed is the one that the proxy has for its attribute, so that two that are subscribed to the
  -- same attribute are the same object, and one that is unsubscribed has no callback left.
  pub one_subscription :
      (ops : List (Operation V E)) (h h' : ℕ) (o o' : ChangeEventSubscription)
      → let p = perform_all ops (new_proxy {V = V}) in
        get_elem? p.objects h ≡ some o
        → get_elem? p.objects h' ≡ some o'
        → ((o.subscribed ≡ false) × (o.callbacks ≡ []))
          ⊎ ((lookup o.attribute_name p.subscriptions ≡ some h)
              × (o'.subscribed ≡ true → o'.attribute_name ≡ o.attribute_name → h' ≡ h))
  one_subscription ops h h' o o' e e' =
      let k = perform_all-IsKept ops new_proxy (new-IsKept V) in
      elim (Bool-cases o.subscribed) [
        | inr off ↦ inl (off, k.silent h o e off)
        | inl on ↦ inr (
          k.live h o e on,
          λ on' same. let a = k.live h o e on in let b = k.live h' o' e' on' in ground arith,
        )
      ]
