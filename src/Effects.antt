-- ===== src/Effects.antt =====
-- Python code that keeps a state and that may raise: an action takes the state, and it returns or
-- raises with the state as it was then.
use ska_pst_lmc.Prelude.{Option, none, some, ◌≡◌, refl, ap, ◌⊎◌, inl, inr}

pub data Result (E A : Type 0) : Type 0 where
  returned : A → Result E A
  raised : E → Result E A

abbrev pub Act : Type 0 → Type 0 → Type 0 → Type 0
Act S E A = S → Result E A × S

module _ {S E : Type 0} where
  infixl 5 ◌>>=◌ ◌>>◌
  abbrev pub ◌>>=◌ : {A B : Type 0} → Act S E A → (A → Act S E B) → Act S E B
  ◌>>=◌ m f s = let (r, s') = m s in elim r [ returned a ↦ f a s' | raised e ↦ (raised e, s') ]

  abbrev pub ◌>>◌ : {A B : Type 0} → Act S E A → Act S E B → Act S E B
  m >> k = m >>= λ _. k

  -- `try: m  except Exception as e: handler`
  abbrev pub try_except : {A : Type 0} → Act S E A → (E → Act S E A) → Act S E A
  try_except m handler s =
      let (r, s') = m s in elim r [ returned a ↦ (returned a, s') | raised e ↦ handler e s' ]

  abbrev pub pure : {A : Type 0} → A → Act S E A
  pure a s = (returned a, s)

  abbrev pub modify : (S → S) → Act S E Unit
  modify f s = (returned tt, f s)

  abbrev pub get : Act S E S
  get s = (returned s, s)

  abbrev pub from_result : {A : Type 0} → Result E A → Act S E A
  from_result r s = (r, s)

  -- What a call outside comes to: nothing, or an exception.
  abbrev pub unless_raised : Option E → Act S E Unit
  unless_raised none s = (returned tt, s)
  unless_raised (some e) s = (raised e, s)

pub Result-cases :
    {E A : Type 0} (r : Result E A) → ((a : A) × (r ≡ returned a)) ⊎ ((e : E) × (r ≡ raised e))
Result-cases (returned a) = inl (a, refl)
Result-cases (raised e) = inr (e, refl)

module _ {S E A : Type 0} where
  pub then_returned :
      {B : Type 0} (m : Act S E A) (k : A → Act S E B) (s : S) {a : A}
      → (m s).0 ≡ returned a
      → (m >>= k) s ≡ k a (m s).1
  then_returned m k s e = rw (e, ◌>>=◌)

  pub then_raised :
      {B : Type 0} (m : Act S E A) (k : A → Act S E B) (s : S) {x : E}
      → (m s).0 ≡ raised x
      → (m >>= k) s ≡ (raised x, (m s).1)
  then_raised m k s e = rw (e, ◌>>=◌)

  pub try_returned :
      (m : Act S E A) (h : E → Act S E A) (s : S) {a : A}
      → (m s).0 ≡ returned a
      → try_except m h s ≡ (returned a, (m s).1)
  try_returned m h s e = rw (e, try_except)

  pub try_raised :
      (m : Act S E A) (h : E → Act S E A) (s : S) {x : E}
      → (m s).0 ≡ raised x
      → try_except m h s ≡ h x (m s).1
  try_raised m h s e = rw (e, try_except)

  -- An action that returns passes its value and its state on.
  pub then_from :
      {B : Type 0} (m : Act S E A) (k : A → Act S E B) (s : S) {s' : S} {a : A}
      → m s ≡ (returned a, s')
      → (m >>= k) s ≡ k a s'
  then_from {B} m k s h =
      ap
        (λ p. elim p.0 as (λ r. Result E B × S) [
          | returned a ↦ k a p.1
          | raised e ↦ (raised e, p.1)
        ])
        h

  -- A `try` sees only what its body comes to.
  pub try_same :
      (m n : Act S E A) (h : E → Act S E A) {s s' : S}
      → m s ≡ n s'
      → try_except m h s ≡ try_except n h s'
  try_same m n h same =
      ap
        (λ p. elim p.0 as (λ r. Result E A × S) [
          | returned a ↦ (returned a, p.1)
          | raised e ↦ h e p.1
        ])
        same

  -- What follows an action sees only what it comes to.
  pub then_same :
      {B : Type 0} (m n : Act S E A) (k : A → Act S E B) {s s' : S}
      → m s ≡ n s'
      → (m >>= k) s ≡ (n >>= k) s'
  then_same {B} m n k same =
      ap
        (λ p. elim p.0 as (λ r. Result E B × S) [
          | returned a ↦ k a p.1
          | raised e ↦ (raised e, p.1)
        ])
        same
