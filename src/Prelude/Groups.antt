-- ===== src/Prelude/Groups.antt =====
-- `buckets.setdefault(key(r), []).append(r)` over a list of rows: a dict of lists, its keys in the order in
-- which they first came.
use sc_tpcrs.Prelude.{Bool, List, [], ◌∷◌, ◌++◌, if◌then◌else◌}

module _ {K A : Type 0} (same : K → K → Bool) where
  unfoldable pub add_to : K → A → List (K × List A) → List (K × List A)
  add_to k r [] = (k, r ∷ []) ∷ []
  add_to k r ((j, rs) ∷ buckets) =
      let rest = add_to k r buckets in
      if same j k then (j, rs ++ r ∷ []) ∷ buckets else (j, rs) ∷ rest

  unfoldable pub group_from : (A → K) → List A → List (K × List A) → List (K × List A)
  unfolding add_to
  group_from key [] buckets = buckets
  group_from key (r ∷ rs) buckets = group_from key rs (add_to (key r) r buckets)
