-- ===== src/Proxy.antt =====
-- The wrapper of a Tango device proxy (src/ska_pst_lmc/device_proxy.py): its subscriptions to change
-- events. A subscription is an object that the proxy and its subscribers share, so that it stands in a
-- list under a number. A callback is a number, and returns. What a call of Tango comes to is an
-- argument. The calls of a proxy and of its subscriptions, and the events, come one after the other:
-- the locks, and calls at the same time, are not in the model.
pub mod Objects
pub mod Sound
pub mod Events
mod Examples
use ska_pst_lmc.Prelude.{
  ℕ, String, Bool, true, false, Option, none, some, List, [], ◌∷◌, ◌++◌, length, get_elem?, set,
  lookup, insert, erase, string_key,
}
use ska_pst_lmc.Effects.{Result, returned, raised, Act, ◌>>=◌, ◌>>◌, pure, modify, from_result}

pub record ChangeEventSubscription : Type 0 where
  pub subscription_id : ℕ
  pub attribute_name : String
  pub callbacks : List ℕ
  pub subscribed : Bool

-- A call of the Tango proxy.
pub data TangoCall : Type 0 where
  subscribe_event read_attribute : String → TangoCall
  unsubscribe_event : ℕ → TangoCall

-- `delivered` are the calls of the callbacks, the latest first, as `calls` are.
pub record PstDeviceProxy (V : Type 0) : Type 0 where
  pub subscriptions : List (String × ℕ)
  pub objects : List ChangeEventSubscription
  pub delivered : List (ℕ × V)
  pub calls : List TangoCall

abbrev pub new_proxy : {V : Type 0} → PstDeviceProxy V
new_proxy = record { subscriptions = []; objects = []; delivered = []; calls = [] }

-- `tango.EventData`: an error, no value, or a value.
pub data EventData (V : Type 0) : Type 0 where
  error_event empty_event : EventData V
  value_event : V → EventData V

abbrev pub with_callback : ℕ → ChangeEventSubscription → ChangeEventSubscription
with_callback c o = record o { callbacks = o.callbacks ++ c ∷ [] }

abbrev pub new_subscription : String → ℕ → ℕ → ChangeEventSubscription
new_subscription attribute_name callback subscription_id = record {
  subscription_id = subscription_id;
  attribute_name = attribute_name;
  callbacks = callback ∷ [];
  subscribed = true;
}

module _ {V : Type 0} where
  abbrev pub deliver : ℕ → V → PstDeviceProxy V → PstDeviceProxy V
  deliver c v p = record p { delivered = (c, v) ∷ p.delivered }

  abbrev pub deliver_all : List ℕ → V → PstDeviceProxy V → PstDeviceProxy V
  deliver_all [] v p = p
  deliver_all (c ∷ cs) v p = deliver_all cs v (deliver c v p)

  -- `callbacks.append` of the object `h`.
  abbrev pub append_callback : ℕ → ℕ → PstDeviceProxy V → PstDeviceProxy V
  append_callback h c p = elim (get_elem? p.objects h) [
    | none ↦ p
    | some o ↦ record p { objects = set p.objects h (with_callback c o) }
  ]

  -- An exception of `unsubscribe_event` is logged.
  unfoldable pub unsubscribe_change_event :
      ChangeEventSubscription → PstDeviceProxy V → PstDeviceProxy V
  unsubscribe_change_event o p = record p {
    calls = unsubscribe_event o.subscription_id ∷ p.calls;
    subscriptions = erase o.attribute_name p.subscriptions;
  }

  -- `ChangeEventSubscription.unsubscribe`
  unfoldable pub unsubscribe : ℕ → PstDeviceProxy V → PstDeviceProxy V
  unfolding unsubscribe_change_event
  unsubscribe h p = elim (get_elem? p.objects h) [
    | none ↦ p
    | some o ↦ elim o.subscribed [
      | false ↦ p
      | true ↦
          let q = unsubscribe_change_event o p in
          record q { objects = set q.objects h (record o { subscribed = false; callbacks = [] }) }
    ]
  ]

  abbrev pub callbacks_of : String → PstDeviceProxy V → List ℕ
  callbacks_of attribute_name p = elim (lookup attribute_name p.subscriptions) [
    | none ↦ []
    | some h ↦ elim (get_elem? p.objects h) [ none ↦ [] | some o ↦ o.callbacks ]
  ]

  abbrev pub tell_all : String → V → PstDeviceProxy V → PstDeviceProxy V
  tell_all attribute_name v p = deliver_all (callbacks_of attribute_name p) v p

  unfoldable pub is_subscribed_to_events : String → PstDeviceProxy V → Bool
  is_subscribed_to_events attribute_name p = elim (lookup attribute_name p.subscriptions) [
    | none ↦ false
    | some h ↦ elim (get_elem? p.objects h) [ none ↦ false | some o ↦ o.subscribed ]
  ]

module _ {V E : Type 0} where
  abbrev call : TangoCall → Act (PstDeviceProxy V) E Unit
  call c = modify (λ p. record p { calls = c ∷ p.calls })

  -- `tango_id` and `value` are what `subscribe_event` and `read_attribute` come to. The result is the
  -- number of the subscription.
  unfoldable pub subscribe_change_event :
      String → ℕ → Result E ℕ → Result E V → Act (PstDeviceProxy V) E ℕ
  subscribe_change_event attribute_name callback tango_id value p =
      elim (lookup attribute_name p.subscriptions) [
        | some h ↦
            (modify (append_callback h callback)
                >> call (read_attribute attribute_name)
                >> from_result value
                >>= λ v. modify (deliver callback v) >> pure h)
              p
        | none ↦
            (call (subscribe_event attribute_name) >> from_result tango_id >>= λ id. λ q. (
              returned (length q.objects),
              record q {
                objects = q.objects ++ new_subscription attribute_name callback id ∷ [];
                subscriptions = insert attribute_name (length q.objects) q.subscriptions;
              },
            ))
              p
      ]

  unfoldable pub event_callback : String → EventData V → Result E V → Act (PstDeviceProxy V) E Unit
  event_callback attribute_name error_event value = pure tt
  event_callback attribute_name empty_event value =
      call (read_attribute attribute_name) >> from_result value >>= λ v.
      modify (tell_all attribute_name v)
  event_callback attribute_name (value_event v) value = modify (tell_all attribute_name v)
