-- ===== src/Floats.antt =====
-- Floating point numbers, an interface. `divide` raises `ZeroDivisionError`.
use ska_pst_lmc.Prelude.{ℕ, Option}

pub record Floats : Type 1 where
  pub F : Type 0
  pub of_int : ℕ → F
  pub plus : F → F → F
  pub times : F → F → F
  pub divide : F → F → Option F
