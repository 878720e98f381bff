-- ===== src/Prelude/Value.antt =====
-- The values of Python's dicts: event payloads, and the details of audit rows and of alerts.
-- An integer is a natural number: no payload of the services holds a negative one. A float is kept
-- as its `repr`.
use sc_tpcrs.Prelude.{
  ℕ, String, Bool, true, false, not, Option, none, some, List, [], ◌∷◌, nat_eq, ◌==◌, ◌||◌, decimal,
  if◌then◌else◌,
}

pub data Value : Type 0 where
  null : Value
  boolean : Bool → Value
  integer : ℕ → Value
  real : String → Value
  str : String → Value

abbrev pub Dict : Type 0
Dict = List (String × Value)

-- A value of a `details` column: a plain value or a list of texts.
pub data Detail : Type 0 where
  value : Value → Detail
  texts : List String → Detail

abbrev pub Details : Type 0
Details = List (String × Detail)

-- `d.get(k)`, a missing key apart from a `None`.
unfoldable pub lookup : String → Dict → Option Value
lookup k [] = none
lookup k ((j, v) ∷ d) = let rest = lookup k d in if j == k then some v else rest

-- `d.get(k, default)`.
unfoldable pub get_or : Dict → String → Value → Value
get_or d k default = elim (lookup k d) [ none ↦ default | some v ↦ v ]

-- `bool(v)`.
unfoldable pub truthy : Value → Bool
truthy null = false
truthy (boolean b) = b
truthy (integer n) = not (nat_eq n 0)
truthy (real r) = not (r == "0.0" || r == "-0.0")
truthy (str s) = not (s == "")

-- `str(v)`.
unfoldable pub to_text : Value → String
to_text null = "None"
to_text (boolean true) = "True"
to_text (boolean false) = "False"
to_text (integer n) = decimal n
to_text (real r) = r
to_text (str s) = s

-- `v == s` for a text `s`.
abbrev pub is_text : Value → String → Bool
is_text (str t) s = t == s
is_text _ s = false

pub as_details : Dict → Details
as_details [] = []
as_details ((k, v) ∷ d) = (k, Detail.value v) ∷ as_details d
