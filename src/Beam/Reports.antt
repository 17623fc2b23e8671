-- ===== src/Beam/Reports.antt =====
-- What the actions of the BEAM report
-- (src/ska_pst_lmc/beam/beam_component_manager.py, `_RemoteJob` and the completion callbacks).
use ska_pst_lmc.Prelude.{
  ◌≡◌, refl, ap, ◌∙◌, ◌⊎◌, inl, inr, Bool, true, false, Option, none, List, [], ◌∷◌, string_key,
  Option-cases, arith,
}
use ska_pst_lmc.Effects.{
  Result-cases, Result, returned, raised, ◌>>=◌, then_returned, then_raised, try_returned,
  try_raised, try_except, modify,
}
use ska_pst_lmc.Beam.{
  BeamComponentManager, Call, task_callback, TaskStatus, completed_status, failed_status,
}
use ska_pst_lmc.Beam.Commands.{Values, Beam, call, report}

-- The statuses among the calls, the latest first.
abbrev pub statuses : {V : Type 0} → List (Call V) → List TaskStatus
statuses [] = []
statuses (task_callback status ∷ cs) = status ∷ statuses cs
statuses (_ ∷ cs) = statuses cs

abbrev pub is_report : {V : Type 0} → Call V → Bool
is_report (task_callback status) = true
is_report _ = false

module _ {V E : Type 0} (v : Values V E) (raises : Call V → Option E) where
  pub call-calls :
      (has_callback : Bool) (c : Call V) (m : BeamComponentManager V)
      → (call v raises has_callback c m).1.calls ≡ c ∷ m.calls
  call-calls has_callback c m = elim (Option-cases (raises c)) [
    | inl silent ↦ rw silent
    | inr (x, loud) ↦ rw loud
  ]

module _ {V E : Type 0} (v : Values V E) (raises : Call V → Option E) where
  unreported :
      (c : Call V) (cs : List (Call V)) → is_report c ≡ false → statuses (c ∷ cs) ≡ statuses cs
  unreported c cs other = ground arith

  -- The action reports nothing, whether it returns or raises.
  abbrev pub Quiet : {A : Type 0} → Beam v raises true A → Type 0
  Quiet act = (m : BeamComponentManager V) → statuses (act m).1.calls ≡ statuses m.calls

  -- The action reports one final status and returns, or it raises and reports nothing.
  pub data Reported (act : Beam v raises true Unit) (m : BeamComponentManager V) : Type 0 where
    reports :
        (status : TaskStatus)
        → (status ≡ completed_status) ⊎ (status ≡ failed_status)
        → statuses (act m).1.calls ≡ status ∷ statuses m.calls
        → (act m).0 ≡ returned tt
        → Reported act m
    silent :
        (e : E)
        → statuses (act m).1.calls ≡ statuses m.calls
        → (act m).0 ≡ raised e
        → Reported act m

  abbrev pub Finishes : Beam v raises true Unit → Type 0
  Finishes act = (m : BeamComponentManager V) → Reported act m

  pub seen :
      {A : Type 0} {x y : Result E A × BeamComponentManager V}
      → x ≡ y
      → statuses x.1.calls ≡ statuses y.1.calls
  seen e = ap (λ r. statuses r.1.calls) e

  pub Quiet-call : (c : Call V) → is_report c ≡ false → Quiet (call v raises true c)
  Quiet-call c other m = ap statuses (call-calls v raises true c m) ∙ unreported c m.calls other

  pub Quiet-modify :
      (f : BeamComponentManager V → BeamComponentManager V)
      → ((m : BeamComponentManager V) → (f m).calls ≡ m.calls)
      → Quiet (modify f)
  Quiet-modify f keeps m = ap statuses (keeps m)

  pub Quiet-then :
      {A B : Type 0} (a : Beam v raises true A) (k : A → Beam v raises true B)
      → Quiet a
      → ((x : A) → Quiet (k x))
      → Quiet (a >>= k)
  Quiet-then a k qa qk m = elim (Result-cases (a m).0) [
    | inl (x, e) ↦ seen (then_returned a k m e) ∙ qk x (a m).1 ∙ qa m
    | inr (x, e) ↦ seen (then_raised a k m e) ∙ qa m
  ]

  pub Finishes-then :
      {A : Type 0} (a : Beam v raises true A) (k : A → Beam v raises true Unit)
      → Quiet a
      → ((x : A) → Finishes (k x))
      → Finishes (a >>= k)
  Finishes-then a k qa fk m = elim (Result-cases (a m).0) [
    | inl (x, e) ↦
        let run = then_returned a k m e in
        elim (fk x (a m).1) [
          | reports status final s r ↦
              reports status final (seen run ∙ s ∙ ap (λ y. status ∷ y) (qa m))
                (ap (λ y. y.0) run ∙ r)
          | silent x s r ↦ silent x (seen run ∙ s ∙ qa m) (ap (λ y. y.0) run ∙ r)
        ]
    | inr (x, e) ↦ let run = then_raised a k m e in silent x (seen run ∙ qa m) (ap (λ y. y.0) run)
  ]

  -- The task callback itself does not raise.
  module _ (heard : (status : TaskStatus) → raises (task_callback status) ≡ none) where
    pub report-statuses :
        (status : TaskStatus) (m : BeamComponentManager V)
        → (statuses (report v raises true status m).1.calls ≡ status ∷ statuses m.calls)
          × ((report v raises true status m).0 ≡ returned tt)
    report-statuses status m = let h = heard status in (rw h, rw h)

    pub Finishes-report : Finishes (report v raises true completed_status)
    Finishes-report m =
        let (s, r) = report-statuses completed_status m in reports completed_status (inl refl) s r

    pub Finishes-try :
        (act : Beam v raises true Unit)
        → Finishes act
        → Finishes (try_except act (λ e. report v raises true failed_status))
    Finishes-try act f m = elim (f m) [
      | reports status final s r ↦
          let run = try_returned act (λ e. report v raises true failed_status) m r in
          reports status final (seen run ∙ s) (ap (λ y. y.0) run)
      | silent e s r ↦
          let run = try_raised act (λ e. report v raises true failed_status) m r in
          let (s', r') = report-statuses failed_status (act m).1 in
          reports failed_status (inr refl) (seen run ∙ s' ∙ ap (λ y. failed_status ∷ y) s)
            (ap (λ y. y.0) run ∙ r')
    ]
