-- ===== src/Prelude/Sorting.antt =====
-- `sorted(rows, key=...)` on texts, as an insertion sort: it is stable, as Python's is.
use Prim.Native.String.{compare}
use text.Mathlib.Text.{is_lt}
use sc_tpcrs.Prelude.{String, List, [], ◌∷◌, if◌then◌else◌}

module _ {R : Type 0} (key : R → String) where
  insert : R → List R → List R
  insert r [] = r ∷ []
  insert r (s ∷ rows) =
      let rest = insert r rows in if is_lt (compare (key s) (key r)) then s ∷ rest else r ∷ s ∷ rows

  unfoldable pub sort_by : List R → List R
  unfolding insert
  sort_by [] = []
  sort_by (r ∷ rows) = insert r (sort_by rows)
