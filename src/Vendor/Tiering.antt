-- ===== src/Vendor/Tiering.antt =====
-- services/vendor-service/app/services/tiering.py.
use sc_tpcrs.Prelude.{
  ℕ, String, Option, none, some, [], ◌∷◌, ◌==◌, ltb, nat_eq, fstring, Result, Error, ◌>>=◌,
  or_raise, if◌then◌else◌,
}
use sc_tpcrs.Prelude.Value.{Value, str, to_text}

-- `_ORDER` as a function: none if the value is no key.
unfoldable pub order : String → Option ℕ
order value =
    if value == "Low"
    then some 0
    else if value == "Medium"
    then some 1
    else if value == "High"
    then some 2
    else if value == "Critical"
    then some 3
    else none

-- `_REVERSE[rank]`.
unfoldable pub reverse : ℕ → Option String
reverse rank =
    if nat_eq rank 0
    then some "Low"
    else if nat_eq rank 1
    then some "Medium"
    else if nat_eq rank 2
    then some "High"
    else if nat_eq rank 3
    then some "Critical"
    else none

abbrev pub max : ℕ → ℕ → ℕ
max a b = if ltb a b then b else a

-- `repr(value)` of a text, or of `None`.
abbrev repr_of : Value → String
repr_of (str s) = fstring ("'" ∷ s ∷ "'" ∷ [])
repr_of v = to_text v

abbrev pub order_of : Value → Option ℕ
order_of (str s) = order s
order_of v = none

-- The rank of a dimension, which may be `None` on an update.
abbrev pub dimension : Value → Result ℕ
dimension value =
    or_raise (order_of value)
      (Error.value_error (fstring ("Invalid tier dimension value: " ∷ repr_of value ∷ [])))

unfoldable pub compute_tier : Value → Value → Value → Result String
compute_tier data_access_scope service_criticality integration_depth = do
  d ← dimension data_access_scope
  s ← dimension service_criticality
  i ← dimension integration_depth
  or_raise (reverse (max (max d s) i)) (Error.external "KeyError")
