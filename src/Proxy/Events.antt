-- ===== src/Proxy/Events.antt =====
-- Who hears of an event (src/ska_pst_lmc/device_proxy.py).
use mathlib.Core.Path.{subst}
use mathlib.Core.List.{append_assoc, append-nil, reverse, reverse-cons}
use ska_pst_lmc.Prelude.{
  ℕ, String, ◌≡◌, refl, sym, ap, ◌∙◌, true, false, none, some, List, [], ◌∷◌, map, ◌++◌, length,
  get_elem?, lookup, string_key, if◌then◌else◌, lookup-insert, lookup-erase, eq_self, lt-length,
  get_elem?-set_self, get_elem?-append_last, arith,
}
use ska_pst_lmc.Effects.{Result, returned}
use ska_pst_lmc.Proxy.{
  ChangeEventSubscription, PstDeviceProxy, value_event, deliver, deliver_all, with_callback,
  new_subscription, subscribe_change_event, unsubscribe, event_callback, is_subscribed_to_events,
}
use ska_pst_lmc.Proxy.Sound.{subscribe_again, subscribe_first, unsubscribe_lem}

module _ {V : Type 0} where
  -- The attribute is subscribed, with these callbacks.
  abbrev Hear : String → ℕ → List ℕ → PstDeviceProxy V → Type 0
  Hear a h cs p =
      (o : ChangeEventSubscription) × (lookup a p.subscriptions ≡ some h)
      × (get_elem? p.objects h ≡ some o)
      × (o.attribute_name ≡ a)
      × (o.subscribed ≡ true)
      × (o.callbacks ≡ cs)

module _ {V : Type 0} (E : Type 0) where
  -- Subscriptions to one attribute in turn, by several callbacks.
  abbrev pub subscribe_all : String → List ℕ → ℕ → V → PstDeviceProxy V → PstDeviceProxy V
  subscribe_all a [] id v p = p
  subscribe_all a (c ∷ cs) id v p =
      subscribe_all a cs id v (subscribe_change_event {E = E} a c (returned id) (returned v) p).1

  again-Hear :
      (a : String) (h c id : ℕ) (v : V) (cs : List ℕ) (p : PstDeviceProxy V)
      → Hear a h cs p
      → Hear a h (cs ++ c ∷ []) (subscribe_change_event {E = E} a c (returned id) (returned v) p).1
  again-Hear a h c id v cs p (o, found, there, name, on, callbacks) =
      let (s, e) = subscribe_again {E = E} a c (returned id) (returned v) p h o found there in
      (
        with_callback c o,
        ap (lookup a) s ∙ found,
        ap (λ x. get_elem? x h) e
            ∙ get_elem?-set_self p.objects h (with_callback c o) (lt-length p.objects h there),
        name,
        on,
        ap (λ x. x ++ c ∷ []) callbacks,
      )

  all-Hear :
      (a : String) (h id : ℕ) (v : V) (more cs : List ℕ) (p : PstDeviceProxy V)
      → Hear a h cs p
      → Hear a h (cs ++ more) (subscribe_all a more id v p)
  all-Hear a h id v [] cs p k = subst (λ x. Hear a h x p) (sym (append-nil cs)) k
  all-Hear a h id v (c ∷ more) cs p k =
      subst (λ x. Hear a h x (subscribe_all a (c ∷ more) id v p)) (append_assoc cs (c ∷ []) more)
        (all-Hear a h id v more (cs ++ c ∷ []) _ (again-Hear a h c id v cs p k))

  first-Hear :
      (a : String) (c id : ℕ) (v : V) (p : PstDeviceProxy V)
      → lookup a p.subscriptions ≡ none
      → Hear a
          (length p.objects)
          (c ∷ [])
          (subscribe_change_event {E = E} a c (returned id) (returned v) p).1
  first-Hear a c id v p absent =
      let (s, e) = subscribe_first {E = E} a c id (returned v) p absent in
      (
        new_subscription a c id,
        ap (lookup a) s
            ∙ lookup-insert a a (length p.objects) p.subscriptions
            ∙ ap (λ b. if b then some (length p.objects) else lookup a p.subscriptions) (eq_self a),
        ap (λ x. get_elem? x (length p.objects)) e
            ∙ get_elem?-append_last p.objects (new_subscription a c id),
        refl,
        refl,
        refl,
      )

  Hear-event :
      (a : String) (h : ℕ) (cs : List ℕ) (v : V) (value : Result E V) (p : PstDeviceProxy V)
      → Hear a h cs p
      → event_callback a (value_event v) value p ≡ (returned tt, deliver_all cs v p)
  unfolding event_callback
  Hear-event a h cs v value p (o, found, there, name, on, callbacks) = ground arith

  deliver_all-delivered :
      (cs : List ℕ) (v : V) (p : PstDeviceProxy V)
      → deliver_all cs v p ≡ record p { delivered = reverse (map (λ c. (c, v)) cs) ++ p.delivered }
  deliver_all-delivered [] v p = refl
  deliver_all-delivered (c ∷ cs) v p =
      deliver_all-delivered cs v (deliver c v p)
      ∙ ap (λ ds. record p { delivered = ds })
          (sym (append_assoc (reverse (map (λ x. (x, v)) cs)) ((c, v) ∷ []) p.delivered)
            ∙ ap (λ ds. ds ++ p.delivered) (sym (reverse-cons (c, v) (map (λ x. (x, v)) cs))))

  -- When several callbacks have subscribed, in turn, to an attribute that nothing had subscribed to, an
  -- event with a value calls each of them with it once, in the order in which they subscribed, calls
  -- nothing else, and returns.
  pub event_reaches_subscribers :
      (a : String) (c : ℕ) (cs : List ℕ) (id : ℕ) (read v : V) (value : Result E V)
      (p : PstDeviceProxy V)
      → lookup a p.subscriptions ≡ none
      → let q = subscribe_all a (c ∷ cs) id read p in
        event_callback a (value_event v) value q ≡ (
          returned tt,
          record q { delivered = reverse (map (λ x. (x, v)) (c ∷ cs)) ++ q.delivered },
        )
  event_reaches_subscribers a c cs id read v value p absent =
      let q = subscribe_all a (c ∷ cs) id read p in
      Hear-event a (length p.objects) (c ∷ cs) v value q
        (all-Hear a (length p.objects) id read cs (c ∷ []) _ (first-Hear a c id read p absent))
      ∙ ap (λ x. (returned tt, x)) (deliver_all-delivered (c ∷ cs) v q)

  unsubscribe_silences :
      (a : String) (h : ℕ) (cs : List ℕ) (v : V) (value : Result E V) (p : PstDeviceProxy V)
      → Hear a h cs p
      → (event_callback a (value_event v) value (unsubscribe h p) ≡ (returned tt, unsubscribe h p))
        × (is_subscribed_to_events a (unsubscribe h p) ≡ false)
  unfolding event_callback is_subscribed_to_events
  unsubscribe_silences a h cs v value p (o, found, there, name, on, callbacks) =
      let (s, e) = unsubscribe_lem h p o there on in
      let gone : lookup a (unsubscribe h p).subscriptions ≡ none =
        ap (lookup a) s
        ∙ lookup-erase o.attribute_name a p.subscriptions
        ∙ ap (λ b. if b then none else lookup a p.subscriptions)
            (ap (λ x. string_key.same x a) name ∙ eq_self a) in
      ground arith

  -- Callbacks that subscribe in turn to an attribute that nothing had subscribed to share the object of
  -- the first. When it is unsubscribed, for whichever of them, an event calls none of them, and the proxy
  -- is not subscribed to the attribute.
  pub unsubscribe_silences_all :
      (a : String) (c : ℕ) (cs : List ℕ) (id : ℕ) (read v : V) (value : Result E V)
      (p : PstDeviceProxy V)
      → lookup a p.subscriptions ≡ none
      → let q = unsubscribe (length p.objects) (subscribe_all a (c ∷ cs) id read p) in
        (event_callback a (value_event v) value q ≡ (returned tt, q))
        × (is_subscribed_to_events a q ≡ false)
  unsubscribe_silences_all a c cs id read v value p absent =
      unsubscribe_silences a (length p.objects) (c ∷ cs) v value
        (subscribe_all a (c ∷ cs) id read p)
        (all-Hear a (length p.objects) id read cs (c ∷ []) _ (first-Hear a c id read p absent))
