-- ===== src/Prelude/Distinct.antt =====
-- Texts that are all different, as the keys of a table are, and rows that are replaced by key.
use mathlib.Core.Path.{subst}
use mathlib.Core.Option.{some-injective}
use sc_tpcrs.Prelude.{
  String, ◌≡◌, refl, ap, inl, inr, Bool, true, false, some, List, [], ◌∷◌, ◌++◌, map, ◌==◌, arith,
  All, select, find_first, none, update_where, eq_iff, str_eq_of, Bool-cases, one_of, not, ◌&&◌,
}

abbrev pub Distinct : List String → Type 0
Distinct [] = Unit
Distinct (x ∷ xs) = All (λ y. (x == y) ≡ false) xs × Distinct xs

-- The texts are compared, so that the check of a concrete list computes.
abbrev pub all_distinct : List String → Bool
all_distinct [] = true
all_distinct (x ∷ xs) = not (one_of x xs) && all_distinct xs

pub all_distinct-Distinct : (xs : List String) → all_distinct xs ≡ true → Distinct xs
all_distinct-Distinct [] h = tt
all_distinct-Distinct (x ∷ xs) h =
    (differs xs (ground arith), all_distinct-Distinct xs (ground arith))
  where
    differs : (ys : List String) → one_of x ys ≡ false → All (λ y. (x == y) ≡ false) ys
    differs [] e = tt
    differs (y ∷ ys) e = (ground arith, differs ys (ground arith))

pub str_eq_sym : (s t : String) → (s == t) ≡ (t == s)
str_eq_sym s t = ground (arith, eq_iff s t, eq_iff t s)

pub Distinct-append :
    (xs : List String) (y : String)
    → All (λ x. (x == y) ≡ false) xs
    → Distinct xs
    → Distinct (xs ++ y ∷ [])
Distinct-append [] y fresh d = (tt, tt)
Distinct-append (x ∷ xs) y fresh d = (differs xs d.0, Distinct-append xs y fresh.1 d.1)
  where
    differs :
        (zs : List String)
        → All (λ z. (x == z) ≡ false) zs
        → All (λ z. (x == z) ≡ false) (zs ++ y ∷ [])
    differs [] h = (fresh.0, tt)
    differs (z ∷ zs) h = (h.0, differs zs h.1)

pub All-map {κ} :
    {A : Type 0} (P : String → Type κ) (key : A → String) (xs : List A)
    → All (λ x. P (key x)) xs
    → All P (map key xs)
All-map P key [] h = tt
All-map P key (x ∷ xs) h = (h.0, All-map P key xs h.1)

-- Rows are found and replaced by their key.
module _ {R : Type 0} (key : R → String) where
  replace-none :
      (new : R) (k : String) (xs : List R)
      → All (λ y. (k == y) ≡ false) (map key xs)
      → update_where (λ x. key x == k) (λ _. new) xs ≡ xs
  replace-none new k [] h = refl
  replace-none new k (x ∷ xs) h = ground (arith, str_eq_sym k (key x), replace-none new k xs h.1)

  -- A column that the new row shares with the row it replaces stays as it was.
  pub map-replace :
      {K : Type 0} (column : R → K) (old new : R) (xs : List R)
      → Distinct (map key xs)
      → find_first (λ x. key x == key new) xs ≡ some old
      → column new ≡ column old
      → map column (update_where (λ x. key x == key new) (λ _. new) xs) ≡ map column xs
  map-replace column old new [] d found same = cc
  map-replace column old new (x ∷ xs) d found same = elim (Bool-cases (key x == key new)) [
    | inl hit ↦
        let it : x ≡ old = some-injective x old (rw hit at found) in
        let rest : All (λ y. (key new == y) ≡ false) (map key xs) =
          subst (λ k. All (λ y. (k == y) ≡ false) (map key xs)) (str_eq_of _ _ hit) d.0 in
        rw (hit, replace-none new (key new) xs rest, same, it)
    | inr miss ↦
        rw miss (ap (λ l. column x ∷ l) (map-replace column old new xs d.1 (rw miss at found) same))
  ]

module _ {R : Type 0} (key : R → String) where
  -- No row has a key that differs from every key.
  pub select-fresh :
      (k : String) (xs : List R)
      → All (λ y. (k == y) ≡ false) (map key xs)
      → select (λ x. key x == k) xs ≡ []
  select-fresh k [] h = refl
  select-fresh k (x ∷ xs) h = rw (str_eq_sym (key x) k, h.0) (select-fresh k xs h.1)

  pub find_first-fresh :
      (k : String) (xs : List R)
      → find_first (λ x. key x == k) xs ≡ none
      → All (λ y. (y == k) ≡ false) (map key xs)
  find_first-fresh k [] h = tt
  find_first-fresh k (x ∷ xs) h = elim (Bool-cases (key x == k)) [
    | inl hit ↦ cc (rw hit at h)
    | inr miss ↦ (miss, find_first-fresh k xs (rw miss at h))
  ]
