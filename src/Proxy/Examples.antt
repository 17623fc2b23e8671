-- ===== src/Proxy/Examples.antt =====
-- Two subscribers of an attribute.
use ska_pst_lmc.Prelude.{
  ℕ, String, ◌≡◌, refl, ◌⊎◌, true, false, some, List, [], ◌∷◌, lookup, string_key,
}
use ska_pst_lmc.Effects.{returned, raised}
use ska_pst_lmc.Proxy.{
  ChangeEventSubscription, PstDeviceProxy, new_proxy, value_event, event_callback, unsubscribe,
  is_subscribed_to_events, subscribe_change_event, unsubscribe_change_event,
}
use ska_pst_lmc.Proxy.Sound.{
  Operation, subscribes, unsubscribes, receives, perform_all, one_subscription,
}
use ska_pst_lmc.Proxy.Events.{subscribe_all, event_reaches_subscribers, unsubscribe_silences_all}

abbrev fresh : PstDeviceProxy ℕ
fresh = new_proxy

abbrev both : PstDeviceProxy ℕ
both = subscribe_all String "obsState" (1 ∷ 2 ∷ []) 7 0 fresh

event_reaches_subscribers_example :
    event_callback {E = String} "obsState" (value_event 5) (raised "unread") both
    ≡ (returned tt, record both { delivered = (2, 5) ∷ (1, 5) ∷ both.delivered })
event_reaches_subscribers_example =
    event_reaches_subscribers String "obsState" 1 (2 ∷ []) 7 0 5 (raised "unread") fresh refl

unsubscribe_silences_all_example :
    (event_callback {E = String} "obsState" (value_event 5) (raised "unread") (unsubscribe 0 both)
      ≡ (returned tt, unsubscribe 0 both))
    × (is_subscribed_to_events "obsState" (unsubscribe 0 both) ≡ false)
unsubscribe_silences_all_example =
    unsubscribe_silences_all String "obsState" 1 (2 ∷ []) 7 0 5 (raised "unread") fresh refl

abbrev some_calls : List (Operation ℕ String)
some_calls =
    subscribes "obsState" 1 (returned 7) (returned 0)
    ∷ unsubscribes 0
    ∷ subscribes "obsState" 2 (returned 8) (returned 0)
    ∷ receives "obsState" (value_event 5) (raised "unread")
    ∷ []

abbrev ended : ChangeEventSubscription
ended = record {
  subscription_id = 7;
  attribute_name = "obsState";
  callbacks = [];
  subscribed = false;
}

abbrev current : ChangeEventSubscription
current = record {
  subscription_id = 8;
  attribute_name = "obsState";
  callbacks = 2 ∷ [];
  subscribed = true;
}

one_subscription_example :
    ((current.subscribed ≡ false) × (current.callbacks ≡ []))
    ⊎ ((lookup current.attribute_name (perform_all some_calls fresh).subscriptions ≡ some 1)
        × (ended.subscribed ≡ true
            → ended.attribute_name ≡ current.attribute_name
            → ◌≡◌ {A = ℕ} 0 1))
unfolding subscribe_change_event unsubscribe unsubscribe_change_event event_callback
one_subscription_example = one_subscription some_calls 1 0 current ended refl refl
