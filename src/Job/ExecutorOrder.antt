-- ===== src/Job/ExecutorOrder.antt =====
-- In which order a job sends its commands (src/ska_pst_lmc/job/task_executor.py).
use mathlib.Core.Path.{subst}
use ska_pst_lmc.Prelude.{refl, ◌⊎◌, inl, inr, Bool, List, [], ◌∷◌, ◌++◌, All, All-append}
use ska_pst_lmc.Job.{Task, Tasks, sequential, nil, cons, Outcome}
use ska_pst_lmc.Job.Parallel.{Subtask}
use ska_pst_lmc.Job.Executor.{
  Merge, merge_nil, merge_left, merge_right, In, first, later, commands, commands_all, Ends,
  ends_noop, ends_lambda, ends_no_device, ends_one_device, ends_devices, ends_no_subtask,
  ends_in_turn, ends_parallel, InTurn, turn_nil, turn_failed, turn_done, Together, together_nil,
  together_ended, together_open,
}
use ska_pst_lmc.Job.ExecutorSound.{Succeeds, In-left, In-right, one_each-pairs, Ends-success}

module _ {A : Type 0} where
  abbrev pub Within : List A → List A → Type 0
  Within xs ys = All (λ x. In x ys) xs

  Within-left : (xs ys zs : List A) → Within xs ys → Within xs (ys ++ zs)
  Within-left [] ys zs w = tt
  Within-left (x ∷ xs) ys zs w = (In-left ys zs w.0, Within-left xs ys zs w.1)

  Within-right : (xs ys zs : List A) → Within xs zs → Within xs (ys ++ zs)
  Within-right [] ys zs w = tt
  Within-right (x ∷ xs) ys zs w = (In-right ys zs w.0, Within-right xs ys zs w.1)

  Merge-All {κ} :
      (P : A → Type κ) {xs ys zs : List A} → Merge xs ys zs → All P xs → All P ys → All P zs
  Merge-All P merge_nil h k = tt
  Merge-All P (merge_left m) h k = (h.0, Merge-All P m h.1 k)
  Merge-All P (merge_right m) h k = (k.0, Merge-All P m h k.1)

  pub All-In {κ} : (P : A → Type κ) {x : A} {xs : List A} → All P xs → In x xs → P x
  All-In P h (first e) = subst P e h.0
  All-In P h (later i) = All-In P h.1 i

  pub In-append : (xs ys : List A) {x : A} → In x (xs ++ ys) → In x xs ⊎ In x ys
  In-append [] ys i = inr i
  In-append (y ∷ xs) ys (first e) = inl (first e)
  In-append (y ∷ xs) ys (later i) = elim (In-append xs ys i) [
    | inl l ↦ inl (later l)
    | inr r ↦ inr r
  ]

module _ {D A L E R : Type 0} {answers : D → A → Outcome E → Type 0}
    {calls : L → Outcome E → Type 0} where
  mutual
    unfolding commands commands_all

    -- A job sends no command that is not one of its task's.
    pub Ends-Within :
        {busy : Bool} {t : Task D A L} {sent : List (D × A)} {o : Outcome E}
        → Ends D A L E R answers calls busy t sent o
        → Within sent (commands t)
    Ends-Within ends_noop = tt
    Ends-Within (ends_lambda c) = tt
    Ends-Within ends_no_device = tt
    Ends-Within (ends_one_device h) = (first refl, tt)
    Ends-Within (ends_devices {d₁ = x} {d₂ = y} {ds = ds} {action = a} {name = n} {sent = sent} h) =
        subst (λ cs. Within sent cs) (one_each-pairs L (x ∷ y ∷ ds) a n) (Ends-Within h)
    Ends-Within ends_no_subtask = tt
    Ends-Within (ends_in_turn h) = turn-Within h
    Ends-Within (ends_parallel run set h) = Together-Within h

    pub turn-Within :
        {ts : Tasks D A L} {sent : List (D × A)} {o : Outcome E}
        → InTurn D A L E R answers calls ts sent o
        → Within sent (commands_all ts)
    turn-Within turn_nil = tt
    turn-Within (turn_failed {t = t} {ts = ts} {sent = sent} h) =
        Within-left sent (commands t) (commands_all ts) (Ends-Within h)
    turn-Within (turn_done {t = t} {ts = ts} {sent = sent} {sent' = sent'} h hs) =
        All-append (λ c. In c (commands t ++ commands_all ts)) sent sent'
          (Within-left sent (commands t) (commands_all ts) (Ends-Within h))
          (Within-right sent' (commands t) (commands_all ts) (turn-Within hs))

    Together-Within :
        {busy : Bool} {ts : Tasks D A L} {ss : List (Subtask E R)} {sent : List (D × A)}
        → Together D A L E R answers calls busy ts ss sent
        → Within sent (commands_all ts)
    Together-Within together_nil = tt
    Together-Within (together_ended {t = t} {ts = ts} {own = own} {rest = rest} set h hs m) =
        Merge-All (λ c. In c (commands t ++ commands_all ts)) m
          (Within-left own (commands t) (commands_all ts) (Ends-Within h))
          (Within-right rest (commands t) (commands_all ts) (Together-Within hs))
    Together-Within (together_open {t = t} {ts = ts} {own = own} {rest = rest} unset r i hs m) =
        Merge-All (λ c. In c (commands t ++ commands_all ts)) m
          (Within-left own (commands t) (commands_all ts) i)
          (Within-right rest (commands t) (commands_all ts) (Together-Within hs))

  -- What a sequential task sends is a command of its first subtask, or it is sent by the others
  -- after every command of the first subtask was answered with success.
  pub turn_order :
      (t : Task D A L) (ts : Tasks D A L) (sent : List (D × A)) (o : Outcome E) (c : D × A)
      → InTurn D A L E R answers calls (cons t ts) sent o
      → In c sent
      → In c (commands t)
        ⊎ All (Succeeds answers) (commands t)
          × ((rest : List (D × A)) × InTurn D A L E R answers calls ts rest o × In c rest)
  turn_order t ts sent o c (turn_failed h) i =
      inl (All-In (λ x. In x (commands t)) (Ends-Within h) i)
  turn_order t ts sent o c (turn_done {sent = own} {sent' = rest} h hs) i =
      elim (In-append own rest i) [
        | inl l ↦ inl (All-In (λ x. In x (commands t)) (Ends-Within h) l)
        | inr r ↦ inr (Ends-success h refl, (rest, hs, r))
      ]

-- The command is of some subtask, and every command of the subtasks before was answered with success.
pub data Reached {D A L E : Type 0} (answers : D → A → Outcome E → Type 0) (c : D × A)
    : Tasks D A L → Type 0 where
  now : {t : Task D A L} {ts : Tasks D A L} → In c (commands t) → Reached answers c (cons t ts)
  after :
      {t : Task D A L} {ts : Tasks D A L}
      → All (Succeeds answers) (commands t)
      → Reached answers c ts
      → Reached answers c (cons t ts)

module _ {D A L E R : Type 0} {answers : D → A → Outcome E → Type 0}
    {calls : L → Outcome E → Type 0} where
  turn-Reached :
      {ts : Tasks D A L} {sent : List (D × A)} {o : Outcome E} {c : D × A}
      → InTurn D A L E R answers calls ts sent o
      → In c sent
      → Reached answers c ts
  turn-Reached turn_nil i = elim i [ ]
  turn-Reached (turn_failed {t = t} h) i = now (All-In (λ x. In x (commands t)) (Ends-Within h) i)
  turn-Reached {c = c} (turn_done {t = t} {sent = own} {sent' = rest} h hs) i =
      elim (In-append own rest i) [
        | inl l ↦ now (All-In (λ x. In x (commands t)) (Ends-Within h) l)
        | inr r ↦ after (Ends-success h refl) (turn-Reached hs r)
      ]

  -- Whatever a sequential task sends is a command of a subtask before which every command of the
  -- earlier subtasks was answered with success.
  pub sequential_order :
      (busy : Bool) (ts : Tasks D A L) (sent : List (D × A)) (o : Outcome E) (c : D × A)
      → Ends D A L E R answers calls busy (sequential ts) sent o
      → In c sent
      → Reached answers c ts
  sequential_order busy nil sent o c ends_no_subtask i = elim i [ ]
  sequential_order busy (cons t ts) sent o c (ends_in_turn h) i = turn-Reached h i
