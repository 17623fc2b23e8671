-- ===== src/Proxy/Objects.antt =====
-- What the dictionary of a proxy and its subscription objects say of each other
-- (src/ska_pst_lmc/device_proxy.py), and that it stays so when a callback is added, an object is made
-- and an object is unsubscribed.
use ska_pst_lmc.Prelude.{
  ℕ, suc, ◌<◌, String, ◌≡◌, ◌≢◌, sym, refl, ap, ◌∙◌, ◌⊎◌, inl, inr, true, false, none, some, List,
  [], ◌∷◌, ◌++◌, length, get_elem?, set, nat_beq, lookup, insert, erase, string_key, lookup-insert,
  lookup-erase, eq_self, lt-length, get_elem?-set_self, get_elem?-set_ne, get_elem?-append_last,
  arith, Bool-cases,
}
use ska_pst_lmc.Proxy.{ChangeEventSubscription, with_callback, new_subscription}

set-cases :
    {A : Type 0} (xs : List A) (i j : ℕ) (v w : A)
    → i < length xs
    → get_elem? (set xs i v) j ≡ some w
    → (j ≡ i) × (w ≡ v) ⊎ (j ≢ i) × (get_elem? xs j ≡ some w)
set-cases xs i j v w h e =
    ground (arith, get_elem?-set_self xs i v, get_elem?-set_ne xs {i = i} {j = j} v)

append-cases :
    {A : Type 0} (xs : List A) (j : ℕ) (v w : A)
    → get_elem? (xs ++ v ∷ []) j ≡ some w
    → (j ≡ length xs) × (w ≡ v) ⊎ (j ≢ length xs) × (get_elem? xs j ≡ some w)
append-cases [] ℕ.zero v w e = ground arith
append-cases [] (suc j) v w e = absurd (ground arith)
append-cases (x ∷ xs) ℕ.zero v w e = ground arith
append-cases (x ∷ xs) (suc j) v w e = let k = append-cases xs j v w e in ground arith

append-old :
    {A : Type 0} (xs : List A) (j : ℕ) (v w : A)
    → get_elem? xs j ≡ some w
    → get_elem? (xs ++ v ∷ []) j ≡ some w
append-old [] j v w e = absurd (ground arith)
append-old (x ∷ xs) ℕ.zero v w e = e
append-old (x ∷ xs) (suc j) v w e = append-old xs j v w e

-- The parts that hold of the dictionary and of the objects.
pub record IsSound (subscriptions : List (String × ℕ)) (objects : List ChangeEventSubscription)
    : Type 0 where
  pub held :
      (a : String) (h : ℕ)
      → lookup a subscriptions ≡ some h
      → (o : ChangeEventSubscription) × (get_elem? objects h ≡ some o)
        × (o.attribute_name ≡ a)
        × (o.subscribed ≡ true)
  pub live :
      (h : ℕ) (o : ChangeEventSubscription)
      → get_elem? objects h ≡ some o
      → o.subscribed ≡ true
      → lookup o.attribute_name subscriptions ≡ some h
  pub silent :
      (h : ℕ) (o : ChangeEventSubscription)
      → get_elem? objects h ≡ some o
      → o.subscribed ≡ false
      → o.callbacks ≡ []

module _ (subs : List (String × ℕ)) (objects : List ChangeEventSubscription)
    (sound : IsSound subs objects) where
  pub append-IsSound :
      (h c : ℕ) (o : ChangeEventSubscription)
      → get_elem? objects h ≡ some o
      → o.subscribed ≡ true
      → IsSound subs (set objects h (with_callback c o))
  append-IsSound h c o there on = record {
    held = λ a j e.
        let (w, ew, aw, sw) = sound.held a j e in
        elim (Bool-cases (nat_beq j h)) [
          | inl same ↦ (
            with_callback c o,
            ground (
              arith,
              get_elem?-set_self objects h (with_callback c o) (lt-length objects h there),
            ),
            ground arith,
            on,
          )
          | inr other ↦ (
            w,
            ground (arith, get_elem?-set_ne objects {i = h} {j = j} (with_callback c o)),
            aw,
            sw,
          )
        ];
    live = λ j w e s.
        elim (set-cases objects h j (with_callback c o) w (lt-length objects h there) e) [
          | inl (ej, ew) ↦ let k = sound.live h o there on in ground arith
          | inr (n, e') ↦ sound.live j w e' s
        ];
    silent = λ j w e s.
        elim (set-cases objects h j (with_callback c o) w (lt-length objects h there) e) [
          | inl (ej, ew) ↦ absurd (ground arith)
          | inr (n, e') ↦ sound.silent j w e' s
        ];
  }

  pub create-IsSound :
      (a : String) (c id : ℕ)
      → lookup a subs ≡ none
      → IsSound (insert a (length objects) subs) (objects ++ new_subscription a c id ∷ [])
  create-IsSound a c id absent = record {
    held = λ b j e.
        let found = lookup-insert a b (length objects) subs in
        let key = string_key.same_iff a b in
        elim (Bool-cases (string_key.same a b)) [
          | inl same ↦
              let at_end : j ≡ length objects = ground arith in
              (
                new_subscription a c id,
                ap (get_elem? (objects ++ new_subscription a c id ∷ [])) at_end
                    ∙ get_elem?-append_last objects (new_subscription a c id),
                key.0 same,
                refl,
              )
          | inr other ↦
              let (w, ew, aw, sw) = sound.held b j (ground arith) in
              (w, append-old objects j (new_subscription a c id) w ew, aw, sw)
        ];
    live = λ j w e s. elim (append-cases objects j (new_subscription a c id) w e) [
      | inl (ej, ew) ↦
          let found = lookup-insert a a (length objects) subs in let key = eq_self a in ground arith
      | inr (n, e') ↦
          let found = lookup-insert a w.attribute_name (length objects) subs in
          let key = string_key.same_iff a w.attribute_name in
          let old = sound.live j w e' s in ground arith
    ];
    silent = λ j w e s. elim (append-cases objects j (new_subscription a c id) w e) [
      | inl (ej, ew) ↦ absurd (ground arith)
      | inr (n, e') ↦ sound.silent j w e' s
    ];
  }

  pub drop-IsSound :
      (h : ℕ) (o : ChangeEventSubscription)
      → get_elem? objects h ≡ some o
      → o.subscribed ≡ true
      → IsSound
          (erase o.attribute_name subs)
          (set objects h (record o { subscribed = false; callbacks = [] }))
  drop-IsSound h o there on = record {
    held = λ b j e.
        let found = lookup-erase o.attribute_name b subs in
        let kept : (lookup b subs ≡ some j) × (string_key.same o.attribute_name b ≡ false) =
          ground arith in
        let (w, ew, aw, sw) = sound.held b j kept.0 in
        let n : j ≢ h = λ same. let key = string_key.same_iff o.attribute_name b in ground arith in
        (w, get_elem?-set_ne objects {i = h} {j = j} _ (λ e'. n (sym e')) ∙ ew, aw, sw);
    live = λ j w e s.
        elim (set-cases objects h j (record o { subscribed = false; callbacks = [] }) w
          (lt-length objects h there) e) [
            | inl (ej, ew) ↦ absurd (ground arith)
            | inr (n, e') ↦
                let found = lookup-erase o.attribute_name w.attribute_name subs in
                let key = string_key.same_iff o.attribute_name w.attribute_name in
                let first = sound.live h o there on in let old = sound.live j w e' s in ground arith
          ];
    silent = λ j w e s.
        elim (set-cases objects h j (record o { subscribed = false; callbacks = [] }) w
          (lt-length objects h there) e) [
            | inl (ej, ew) ↦ ground arith
            | inr (n, e') ↦ sound.silent j w e' s
          ];
  }
