-- ===== src/Prelude/Matched.antt =====
-- Two lists whose rows correspond one by one, and the operations on tables that keep them so: selection,
-- counting, sorting and grouping.
use sc_tpcrs.Prelude.{
  suc, subst, ◌+◌, ◌≡◌, refl, sym, ap, ◌∙◌, inl, inr, Bool, List, [], ◌∷◌, ◌++◌, length, select,
  count_where, if◌then◌else◌, Bool-cases,
}
use sc_tpcrs.Prelude.Order.{insert_sorted, sort_with}
use sc_tpcrs.Prelude.Groups.{add_to, group_from}

module _ {A B : Type 0} (R : A → B → Type 0) where
  abbrev pub Matched : List A → List B → Type 0
  Matched [] [] = Unit
  Matched [] (y ∷ ys) = ⊥
  Matched (x ∷ xs) [] = ⊥
  Matched (x ∷ xs) (y ∷ ys) = R x y × Matched xs ys

  pub Matched-length : (xs : List A) (ys : List B) → Matched xs ys → length xs ≡ length ys
  Matched-length [] [] h = refl
  Matched-length [] (y ∷ ys) h = absurd h
  Matched-length (x ∷ xs) [] h = absurd h
  Matched-length (x ∷ xs) (y ∷ ys) h = ap suc (Matched-length xs ys h.1)

  Matched-append :
      (xs : List A) (ys : List B) (x : A) (y : B)
      → Matched xs ys
      → R x y
      → Matched (xs ++ x ∷ []) (ys ++ y ∷ [])
  Matched-append [] [] x y h r = (r, tt)
  Matched-append [] (v ∷ ys) x y h r = absurd h
  Matched-append (u ∷ xs) [] x y h r = absurd h
  Matched-append (u ∷ xs) (v ∷ ys) x y h r = (h.0, Matched-append xs ys x y h.1 r)

  pub Matched-join :
      (xs xs' : List A) (ys ys' : List B)
      → Matched xs ys
      → Matched xs' ys'
      → Matched (xs ++ xs') (ys ++ ys')
  Matched-join [] xs' [] ys' h k = k
  Matched-join [] xs' (v ∷ ys) ys' h k = absurd h
  Matched-join (u ∷ xs) xs' [] ys' h k = absurd h
  Matched-join (u ∷ xs) xs' (v ∷ ys) ys' h k = (h.0, Matched-join xs xs' ys ys' h.1 k)

  -- Tests that agree on corresponding rows.
  module _ (p : A → Bool) (q : B → Bool) (agree : (x : A) (y : B) → R x y → p x ≡ q y) where
    pub select-Matched :
        (xs : List A) (ys : List B) → Matched xs ys → Matched (select p xs) (select q ys)
    select-Matched [] [] h = tt
    select-Matched [] (y ∷ ys) h = absurd h
    select-Matched (x ∷ xs) [] h = absurd h
    select-Matched (x ∷ xs) (y ∷ ys) h = elim (Bool-cases (p x)) [
      | inl in_both ↦ rw (in_both, sym (agree x y h.0) ∙ in_both) (h.0, select-Matched xs ys h.1)
      | inr in_none ↦ rw (in_none, sym (agree x y h.0) ∙ in_none) (select-Matched xs ys h.1)
    ]

    pub count-Matched :
        (xs : List A) (ys : List B) → Matched xs ys → count_where p xs ≡ count_where q ys
    count-Matched [] [] h = refl
    count-Matched [] (y ∷ ys) h = absurd h
    count-Matched (x ∷ xs) [] h = absurd h
    count-Matched (x ∷ xs) (y ∷ ys) h =
        rw (agree x y h.0) (ap (λ n. (if q y then 1 else 0) + n) (count-Matched xs ys h.1))

  -- Comparisons that agree on corresponding rows.
  module _ (before : A → A → Bool) (before' : B → B → Bool)
      (agree : (x x' : A) (y y' : B) → R x y → R x' y' → before x x' ≡ before' y y') where
    insert_sorted-Matched :
        (x : A) (y : B) (xs : List A) (ys : List B)
        → R x y
        → Matched xs ys
        → Matched (insert_sorted before x xs) (insert_sorted before' y ys)
    unfolding insert_sorted
    insert_sorted-Matched x y [] [] r h = (r, tt)
    insert_sorted-Matched x y [] (v ∷ ys) r h = absurd h
    insert_sorted-Matched x y (u ∷ xs) [] r h = absurd h
    insert_sorted-Matched x y (u ∷ xs) (v ∷ ys) r h = elim (Bool-cases (before u x)) [
      | inl first ↦
          rw (first, sym (agree u x v y h.0 r) ∙ first) (h.0, insert_sorted-Matched x y xs ys r h.1)
      | inr after ↦ rw (after, sym (agree u x v y h.0 r) ∙ after) (r, h)
    ]

    pub sort_with-Matched :
        (xs : List A) (ys : List B)
        → Matched xs ys
        → Matched (sort_with before xs) (sort_with before' ys)
    unfolding sort_with
    sort_with-Matched [] [] h = tt
    sort_with-Matched [] (y ∷ ys) h = absurd h
    sort_with-Matched (x ∷ xs) [] h = absurd h
    sort_with-Matched (x ∷ xs) (y ∷ ys) h =
        insert_sorted-Matched x y (sort_with before xs) (sort_with before' ys) h.0
          (sort_with-Matched xs ys h.1)

module _ {K A B : Type 0} (same : K → K → Bool) (R : A → B → Type 0) where
  -- The buckets have the same keys in the same order, and corresponding rows.
  abbrev pub SameBuckets : List (K × List A) → List (K × List B) → Type 0
  SameBuckets = Matched (λ (a : K × List A) (b : K × List B). (a.0 ≡ b.0) × Matched R a.1 b.1)

  add_to-SameBuckets :
      (k : K) (x : A) (y : B) (us : List (K × List A)) (vs : List (K × List B))
      → R x y
      → SameBuckets us vs
      → SameBuckets (add_to same k x us) (add_to same k y vs)
  unfolding add_to
  add_to-SameBuckets k x y [] [] r h = ((refl, (r, tt)), tt)
  add_to-SameBuckets k x y [] (b ∷ vs) r h = absurd h
  add_to-SameBuckets k x y (a ∷ us) [] r h = absurd h
  add_to-SameBuckets k x y ((i, xs) ∷ us) ((j, ys) ∷ vs) r h = elim (Bool-cases (same i k)) [
    | inl here ↦
        rw (here, sym (ap (λ l. same l k) (h.0).0) ∙ here)
          (((h.0).0, Matched-append R xs ys x y (h.0).1 r), h.1)
    | inr there ↦
        rw (there, sym (ap (λ l. same l k) (h.0).0) ∙ there)
          (h.0, add_to-SameBuckets k x y us vs r h.1)
  ]

  pub group_from-SameBuckets :
      (key : A → K) (key' : B → K)
      → ((x : A) (y : B) → R x y → key x ≡ key' y)
      → (xs : List A) (ys : List B) (us : List (K × List A)) (vs : List (K × List B))
      → Matched R xs ys
      → SameBuckets us vs
      → SameBuckets (group_from same key xs us) (group_from same key' ys vs)
  unfolding group_from
  group_from-SameBuckets key key' agree [] [] us vs m h = h
  group_from-SameBuckets key key' agree [] (y ∷ ys) us vs m h = absurd m
  group_from-SameBuckets key key' agree (x ∷ xs) [] us vs m h = absurd m
  group_from-SameBuckets key key' agree (x ∷ xs) (y ∷ ys) us vs m h =
      group_from-SameBuckets key key' agree xs ys (add_to same (key x) x us)
        (add_to same (key' y) y vs) m.1
        (subst (λ k. SameBuckets (add_to same (key x) x us) (add_to same k y vs)) (agree x y m.0)
          (add_to-SameBuckets (key x) x y us vs m.0 h))
