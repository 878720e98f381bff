-- ===== src/Prelude/Floats.antt =====
-- Python's floats as an abstract type with the operations that the code uses.
use sc_tpcrs.Prelude.{ℕ, String, Bool, if◌then◌else◌}

-- `literal "0.6"` is the float of a literal, `of_int` converts, `fixed1` is the format `.1f`, `repr`
-- the text that JSON keeps, `round2` is `round(x, 2)`; `lt` and `le` are the comparisons.
pub record Floats : Type 1 where
  pub F : Type 0
  pub literal : String → F
  pub of_int : ℕ → F
  pub add : F → F → F
  pub sub : F → F → F
  pub mul : F → F → F
  pub div : F → F → F
  pub lt : F → F → Bool
  pub le : F → F → Bool
  pub round2 : F → F
  pub fixed1 : F → String
  pub repr : F → String

module _ (fl : Floats) where
  open fl use {F, lt}

  -- Python's `min(a, b)` and `max(a, b)`.
  abbrev pub py_min : F → F → F
  py_min a b = if lt b a then b else a

  abbrev pub py_max : F → F → F
  py_max a b = if lt a b then b else a
