-- ===== src/Compliance/Library.antt =====
-- services/compliance-service/app/control_library/__init__.py: the control library of the five frameworks.
-- The results that `lru_cache` keeps are computed again here.
pub mod Iso27001
pub mod PciDss
pub mod Soc2
pub mod Ndpr
pub mod Cbn
use sc_tpcrs.Prelude.{
  ℕ, ◌+◌, ◌≡◌, refl, if◌then◌else◌, String, List, [], ◌∷◌, ◌++◌, ◌==◌, length, select, update_where,
  one_of, map, fstring, Result, ok, err, Error, ◌>>=◌, ◌>>◌, raise_if,
}
use sc_tpcrs.Compliance.Spec.{ControlSpec, all_frameworks}

unfoldable pub library : List ControlSpec
library =
    Iso27001.controls ++ (PciDss.controls ++ (Soc2.controls ++ (Ndpr.controls ++ Cbn.controls)))

-- The loop that looks for an identifier that was seen before; the new one joins those seen.
unfoldable pub check_unique : List String → List ControlSpec → Result (Unit {0})
check_unique seen [] = ok tt
check_unique seen (c ∷ cs) = do
  raise_if (one_of c.control_id seen)
      (Error.value_error (fstring ("duplicate control_id in library: " ∷ c.control_id ∷ [])))
  check_unique (c.control_id ∷ seen) cs

unfoldable pub all_controls : Result (List ControlSpec)
all_controls = do check_unique [] library; ok library

unfoldable pub controls_for_framework : String → Result (List ControlSpec)
controls_for_framework framework = do
  controls ← all_controls
  ok (select (λ (c : ControlSpec). c.framework == framework) controls)

-- A dict of counts, in the order of the keys.
abbrev pub Counts : Type 0
Counts = List (String × ℕ)

abbrev key_of : String × ℕ → String
key_of e = e.0

-- `counts[k] = counts.get(k, 0) + 1`.
unfoldable pub count_up : String → Counts → Counts
count_up k counts =
    if one_of k (map key_of counts)
    then update_where (λ e. key_of e == k) (λ e. (e.0, e.1 + 1)) counts
    else counts ++ (k, 1) ∷ []

unfoldable pub count_controls : List ControlSpec → Counts → Counts
unfolding count_up
count_controls [] counts = counts
count_controls (c ∷ cs) counts = count_controls cs (count_up c.framework counts)

unfoldable pub framework_control_counts : Result Counts
unfolding count_controls
framework_control_counts = do
  controls ← all_controls
  ok (count_controls controls (map (λ fw. (fw, 0)) all_frameworks))

unfoldable pub library_size : Result ℕ
library_size = do controls ← all_controls; ok (length controls)

-- The check of the identifiers finds no duplicate.
pub all_controls_lem : all_controls ≡ ok library
unfolding all_controls check_unique library Iso27001.controls PciDss.controls Soc2.controls
    Ndpr.controls Cbn.controls
all_controls_lem = refl
