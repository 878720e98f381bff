-- ===== src/Sbom/Json.antt =====
-- What `json.loads` gives, and how the parsers read it: `d.get(k)`, truth values, iteration and `strip`. What is
-- not a dict has no `get`, and what is not a text no `strip`. A number is kept as its `repr`.
use sc_tpcrs.Prelude.{
  String, Bool, true, false, not, Option, none, some, List, [], ◌∷◌, ◌==◌, Result, ok, err, Error,
  one_of, if◌then◌else◌,
}
use sc_tpcrs.Prelude.Strings.{strip}

mutual
  pub data Json : Type 0 where
    null : Json
    boolean : Bool → Json
    number : String → Json
    str : String → Json
    array : Items → Json
    object : Fields → Json

  pub data Items : Type 0 where
    nil : Items
    cons : Json → Items → Items

  pub data Fields : Type 0 where
    end : Fields
    field : String → Json → Fields → Fields

unfoldable pub lookup_field : String → Fields → Option Json
lookup_field k end = none
lookup_field k (field j v fs) = let rest = lookup_field k fs in if j == k then some v else rest

unfoldable pub to_list : Items → List Json
to_list nil = []
to_list (cons v vs) = v ∷ to_list vs

abbrev pub no_attribute {ℓ} : {A : Type ℓ} → Result A
no_attribute = err (Error.external "AttributeError")

-- `v.get(k)`, none for a missing key.
unfoldable pub get : Json → String → Result (Option Json)
get (object fs) k = ok (lookup_field k fs)
get _ k = no_attribute

-- `bool(v)` of a value that may be missing.
unfoldable pub is_truthy : Option Json → Bool
is_truthy none = false
is_truthy (some null) = false
is_truthy (some (boolean b)) = b
is_truthy (some (number n)) = not (one_of n ("0" ∷ "-0" ∷ "0.0" ∷ "-0.0" ∷ []))
is_truthy (some (str s)) = not (s == "")
is_truthy (some (array nil)) = false
is_truthy (some (array (cons v vs))) = true
is_truthy (some (object end)) = false
is_truthy (some (object (field k v fs))) = true

-- What a loop over `v or []` runs over, where each round calls `get`: the parts of a text or of a dict are
-- texts, and a number cannot be iterated.
unfoldable pub rows_of : Option Json → Result (List Json)
unfolding is_truthy
rows_of (some (array vs)) = ok (to_list vs)
rows_of o = if is_truthy o then no_attribute else ok []

-- `(v or default).strip()`.
unfoldable pub stripped : Option Json → String → Result String
unfolding is_truthy strip
stripped (some (str s)) default = ok (strip (if s == "" then default else s))
stripped o default = if is_truthy o then no_attribute else ok (strip default)
