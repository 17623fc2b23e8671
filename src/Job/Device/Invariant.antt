-- ===== src/Job/Device/Invariant.antt =====
-- What the executor of device commands keeps between inputs
-- (src/ska_pst_lmc/job/device_task_executor.py).
use text.Mathlib.TextEquality.{eq_iff}
use ska_pst_lmc.Prelude.{
  ℕ, String, ◌≡◌, Bool, true, false, not, ◌&&◌, ◌||◌, Option, none, some, List, [], ◌∷◌, ◌==◌,
  lookup, string_key, nat_beq, nat_beq_iff, if◌then◌else◌, arith,
}
use ska_pst_lmc.Job.{TaskContext}
use ska_pst_lmc.Job.Device.{Answer, Input, task, event, DeviceCommandTaskExecutor}

-- The context `ref` is the task's in one of the inputs.
abbrev pub brings : {D E : Type 0} → ℕ → List (Input D E) → Bool
brings ref [] = false
brings ref (task r _ _ _ ∷ is) = nat_beq r ref || brings ref is
brings ref (event _ _ ∷ is) = brings ref is

-- No two tasks share a context.
abbrev pub are_apart : {D E : Type 0} → List (Input D E) → Bool
are_apart [] = true
are_apart (task r _ _ _ ∷ is) = not (brings r is) && are_apart is
are_apart (event _ _ ∷ is) = are_apart is

module _ {D E R : Type 0} where
  -- Before `is` arrive: what waits for an event is not signalled, is not brought again, and waits
  -- under one id; what `is` bring is not signalled.
  pub record Inv (is : List (Input D E)) (x : DeviceCommandTaskExecutor D E R) : Type 0 where
    pub apart : are_apart is ≡ true
    pub unsignalled :
        (k : String) (ref : ℕ)
        → lookup k x.task_context_map ≡ some ref
        → (x.contexts ref).evt ≡ false
    pub not_again :
        (k : String) (ref : ℕ) → lookup k x.task_context_map ≡ some ref → brings ref is ≡ false
    pub one_id :
        (k j : String) (ref : ℕ)
        → lookup k x.task_context_map ≡ some ref
        → lookup j x.task_context_map ≡ some ref
        → k ≡ j
    pub to_come : (ref : ℕ) → brings ref is ≡ true → (x.contexts ref).evt ≡ false

  -- What does not read the contexts' store or the map is of no matter.
  pub Inv-same :
      (is : List (Input D E)) (x y : DeviceCommandTaskExecutor D E R)
      → ((j : ℕ) → y.contexts j ≡ x.contexts j)
      → ((k : String) → lookup k y.task_context_map ≡ lookup k x.task_context_map)
      → Inv is x
      → Inv is y
  Inv-same is x y c m v = record {
    apart = v.apart;
    unsignalled = λ k ref h. rw (c ref) (v.unsignalled k ref (rw (m k) at h));
    not_again = λ k ref h. v.not_again k ref (rw (m k) at h);
    one_id = λ k j ref h i. v.one_id k j ref (rw (m k) at h) (rw (m j) at i);
    to_come = λ ref h. rw (c ref) (v.to_come ref h);
  }

  -- The input is passed over.
  pub Inv-skip :
      (i : Input D E) (is : List (Input D E)) (x : DeviceCommandTaskExecutor D E R)
      → Inv (i ∷ is) x
      → Inv is x
  Inv-skip (task r d s a) is x v = record {
    apart = (let p = v.apart in ground arith);
    unsignalled = v.unsignalled;
    not_again = λ k ref h. (let p = v.not_again k ref h in ground arith);
    one_id = v.one_id;
    to_come = λ ref h. v.to_come ref (ground arith);
  }
  Inv-skip (event k m) is x v = record {
    apart = v.apart;
    unsignalled = v.unsignalled;
    not_again = v.not_again;
    one_id = v.one_id;
    to_come = v.to_come;
  }

  -- The task signals its own context, whatever the signal.
  pub Inv-signal :
      (r : ℕ) (d : D) (s : Option E) (a : Answer E) (is : List (Input D E))
      (x y : DeviceCommandTaskExecutor D E R) (c : TaskContext E R)
      → ((j : ℕ) → y.contexts j ≡ (if nat_beq r j then c else x.contexts j))
      → ((k : String) → lookup k y.task_context_map ≡ lookup k x.task_context_map)
      → Inv (task r d s a ∷ is) x
      → Inv is y
  Inv-signal r d s a is x y c at m v = record {
    apart = (let p = v.apart in ground arith);
    unsignalled = λ k ref h.
        let h' = rw (m k) at h in
        ground (arith, at ref, v.unsignalled k ref h', v.not_again k ref h');
    not_again = λ k ref h. let h' = rw (m k) at h in ground (arith, v.not_again k ref h');
    one_id = λ k j ref h i. v.one_id k j ref (rw (m k) at h) (rw (m j) at i);
    to_come = λ ref h. let p = v.apart in ground (arith, at ref, v.to_come ref, nat_beq_iff r ref);
  }

  -- The task's command goes on under the id.
  pub Inv-wait :
      (r : ℕ) (d : D) (s : Option E) (a : Answer E) (is : List (Input D E))
      (x y : DeviceCommandTaskExecutor D E R) (own : String)
      → ((j : ℕ) → y.contexts j ≡ x.contexts j)
      → ((k : String)
          → lookup k y.task_context_map
            ≡ (if own == k then some r else lookup k x.task_context_map))
      → Inv (task r d s a ∷ is) x
      → Inv is y
  Inv-wait r d s a is x y own at m v = record {
    apart = (let p = v.apart in ground arith);
    unsignalled = λ k ref h.
        ground (arith, at ref, m k, v.unsignalled k ref, v.to_come ref, nat_beq_iff r ref);
    not_again =
        λ k ref h. let p = v.apart in ground (arith, m k, v.not_again k ref, nat_beq_iff r ref);
    one_id = λ k j ref h i. ground (
      arith,
      m k,
      m j,
      v.one_id k j ref,
      v.not_again k ref,
      v.not_again j ref,
      eq_iff own k,
      eq_iff own j,
      nat_beq_iff r ref,
    );
    to_come = λ ref h. ground (arith, at ref, v.to_come ref);
  }

  -- An event signals what waits under its id, which waits no more.
  pub Inv-end :
      (id msg : String) (is : List (Input D E)) (x y : DeviceCommandTaskExecutor D E R) (r : ℕ)
      (c : TaskContext E R)
      → lookup id x.task_context_map ≡ some r
      → ((j : ℕ) → y.contexts j ≡ (if nat_beq r j then c else x.contexts j))
      → ((k : String)
          → lookup k y.task_context_map ≡ (if id == k then none else lookup k x.task_context_map))
      → Inv (event id msg ∷ is) x
      → Inv is y
  Inv-end id msg is x y r c there at m v = record {
    apart = v.apart;
    unsignalled = λ k ref h. ground (
      arith,
      m k,
      at ref,
      v.unsignalled k ref,
      v.one_id id k ref,
      nat_beq_iff r ref,
      eq_iff id k,
    );
    not_again = λ k ref h. ground (arith, m k, v.not_again k ref);
    one_id = λ k j ref h i. ground (arith, m k, m j, v.one_id k j ref);
    to_come =
        λ ref h. ground (arith, at ref, v.to_come ref, v.not_again id r there, nat_beq_iff r ref);
  }
