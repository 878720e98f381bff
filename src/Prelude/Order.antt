-- ===== src/Prelude/Order.antt =====
-- `rows.sort(key=...)` and `sorted(rows, key=...)`, given the strict comparison of the keys: an insertion
-- sort, stable as Python's is. What it keeps.
use sc_tpcrs.Prelude.{
  ◌≡◌, refl, inl, inr, Bool, true, false, List, [], ◌∷◌, arith, All, count_where, if◌then◌else◌,
  Bool-cases,
}

module _ {A : Type 0} (before : A → A → Bool) where
  -- An element goes before the first one that does not come before it.
  unfoldable pub insert_sorted : A → List A → List A
  insert_sorted x [] = x ∷ []
  insert_sorted x (y ∷ ys) =
      let rest = insert_sorted x ys in if before y x then y ∷ rest else x ∷ y ∷ ys

  unfoldable pub sort_with : List A → List A
  unfolding insert_sorted
  sort_with [] = []
  sort_with (x ∷ xs) = insert_sorted x (sort_with xs)

  -- No element comes before the one that stands ahead of it.
  abbrev pub IsSorted : List A → Type 0
  IsSorted [] = Unit
  IsSorted (x ∷ xs) = All (λ y. before y x ≡ false) xs × IsSorted xs

  insert_sorted-All :
      (P : A → Type 0) (x : A) (ys : List A) → P x → All P ys → All P (insert_sorted x ys)
  unfolding insert_sorted
  insert_sorted-All P x [] px h = (px, tt)
  insert_sorted-All P x (y ∷ ys) px h = elim (Bool-cases (before y x)) [
    | inl first ↦ rw first (h.0, insert_sorted-All P x ys px h.1)
    | inr after ↦ rw after (px, h)
  ]

  pub sort_with-All : (P : A → Type 0) (xs : List A) → All P xs → All P (sort_with xs)
  unfolding sort_with
  sort_with-All P [] h = tt
  sort_with-All P (x ∷ xs) h = insert_sorted-All P x (sort_with xs) h.0 (sort_with-All P xs h.1)

  count-insert_sorted :
      (p : A → Bool) (x : A) (ys : List A)
      → count_where p (insert_sorted x ys) ≡ count_where p (x ∷ ys)
  unfolding insert_sorted
  count-insert_sorted p x [] = refl
  count-insert_sorted p x (y ∷ ys) = ground (arith, count-insert_sorted p x ys)

  -- Sorting loses no row and adds none, whichever rows are counted.
  pub count-sort_with :
      (p : A → Bool) (xs : List A) → count_where p (sort_with xs) ≡ count_where p xs
  unfolding sort_with
  count-sort_with p [] = refl
  count-sort_with p (x ∷ xs) =
      ground (arith, count-insert_sorted p x (sort_with xs), count-sort_with p xs)

  -- The comparison is that of a total preorder: never both ways round, and not coming before is transitive.
  module _ (apart : (x y : A) → before x y ≡ true → before y x ≡ false)
      (chain : (x y z : A) → before y x ≡ false → before z y ≡ false → before z x ≡ false) where
    insert_sorted-IsSorted : (x : A) (ys : List A) → IsSorted ys → IsSorted (insert_sorted x ys)
    unfolding insert_sorted
    insert_sorted-IsSorted x [] h = (tt, tt)
    insert_sorted-IsSorted x (y ∷ ys) h = elim (Bool-cases (before y x)) [
      | inl first ↦ rw first (
        insert_sorted-All (λ z. before z y ≡ false) x ys (apart y x first) h.0,
        insert_sorted-IsSorted x ys h.1,
      )
      | inr after ↦ rw after ((after, later after ys h.0), h)
    ]
      where
        later :
            before y x ≡ false
            → (zs : List A) → All (λ z. before z y ≡ false) zs
            → All (λ z. before z x ≡ false) zs
        later after [] a = tt
        later after (z ∷ zs) a = (chain x y z after a.0, later after zs a.1)

    pub sort_with-IsSorted : (xs : List A) → IsSorted (sort_with xs)
    unfolding sort_with
    sort_with-IsSorted [] = tt
    sort_with-IsSorted (x ∷ xs) = insert_sorted-IsSorted x (sort_with xs) (sort_with-IsSorted xs)
