-- ===== src/Prelude/Keyed.antt =====
-- Tables whose rows are changed in place by key: what the change does to counts and to columns, and
-- keys that are drawn from a source that never repeats.
use mathlib.Core.Path.{subst}
use mathlib.Core.Option.{some-injective}
use sc_tpcrs.Prelude.{
  ℕ, zero, suc, ◌≤◌, ◌<◌, String, ◌≡◌, ◌≢◌, refl, ap, inl, inr, Bool, true, false, none, some, List,
  [], ◌∷◌, ◌++◌, map, ◌==◌, arith, All, select, last?, last?-cons, find_first, update_where,
  count_where, str_eq_of, str_ne, Bool-cases,
}
use sc_tpcrs.Prelude.Distinct.{Distinct, Distinct-append, str_eq_sym}

module _ {R : Type 0} where
  -- A change that makes no row pass that did not pass before adds nothing to the count.
  pub count-update_where :
      (p q : R → Bool) (f : R → R)
      → ((x : R) → p (f x) ≡ true → p x ≡ true)
      → (xs : List R) → count_where p (update_where q f xs) ≤ count_where p xs
  count-update_where p q f back [] = omega arith
  count-update_where p q f back (x ∷ xs) = ground (arith, back x, count-update_where p q f back xs)

  pub map-update_where :
      {K : Type 0} (column : R → K) (q : R → Bool) (f : R → R)
      → ((x : R) → column (f x) ≡ column x)
      → (xs : List R) → map column (update_where q f xs) ≡ map column xs
  map-update_where column q f same [] = refl
  map-update_where column q f same (x ∷ xs) = elim (Bool-cases (q x)) [
    | inl hit ↦ rw (hit, same x) (ap (λ l. column x ∷ l) (map-update_where column q f same xs))
    | inr miss ↦ rw miss (ap (λ l. column x ∷ l) (map-update_where column q f same xs))
  ]

  pub select-none : (p : R → Bool) (xs : List R) → last? (select p xs) ≡ none → count_where p xs ≡ 0
  select-none p [] h = refl
  select-none p (x ∷ xs) h = elim (Bool-cases (p x)) [
    | inl hit ↦ let (y, e) = last?-cons x (select p xs) in cc (rw hit at h, e)
    | inr miss ↦ rw miss (omega (arith, select-none p xs (rw miss at h)))
  ]

-- Rows are found and changed by their key.
module _ {R : Type 0} (key : R → String) where
  update-missing :
      (f : R → R) (k : String) (xs : List R)
      → All (λ y. (k == y) ≡ false) (map key xs)
      → update_where (λ x. key x == k) f xs ≡ xs
  update-missing f k [] h = refl
  update-missing f k (x ∷ xs) h =
      rw (str_eq_sym (key x) k, h.0) (ap (λ l. x ∷ l) (update-missing f k xs h.1))

  -- The change is made to the row that is found, and to no other.
  pub count-update_found :
      (p : R → Bool) (f : R → R) (k : String) (old : R) (xs : List R)
      → Distinct (map key xs)
      → find_first (λ x. key x == k) xs ≡ some old
      → (p (f old) ≡ true → p old ≡ true)
      → count_where p (update_where (λ x. key x == k) f xs) ≤ count_where p xs
  count-update_found p f k old [] d found back = cc
  count-update_found p f k old (x ∷ xs) d found back = elim (Bool-cases (key x == k)) [
    | inl hit ↦
        let it : x ≡ old = some-injective x old (rw hit at found) in
        let rest : All (λ y. (k == y) ≡ false) (map key xs) =
          subst (λ j. All (λ y. (j == y) ≡ false) (map key xs)) (str_eq_of _ _ hit) d.0 in
        rw (hit, update-missing f k xs rest, it) (ground (arith, back))
    | inr miss ↦
        rw miss (omega (arith, count-update_found p f k old xs d.1 (rw miss at found) back))
  ]

-- The first keys that a source gives.
abbrev pub drawn : (ℕ → String) → ℕ → List String
drawn f zero = []
drawn f (suc n) = drawn f n ++ f n ∷ []

-- No two keys of the source are the same.
abbrev pub NeverRepeats : (ℕ → String) → Type 0
NeverRepeats f = (i j : ℕ) → i < j → f i ≢ f j

All-snoc :
    (P : String → Type 0) (xs : List String) (y : String) → All P xs → P y → All P (xs ++ y ∷ [])
All-snoc P [] y h py = (py, tt)
All-snoc P (x ∷ xs) y h py = (h.0, All-snoc P xs y h.1 py)

differs :
    (f : ℕ → String)
    → NeverRepeats f
    → (n m : ℕ) → n ≤ m
    → All (λ x. (x == f m) ≡ false) (drawn f n)
differs f never zero m h = tt
differs f never (suc n) m h =
    All-snoc (λ x. (x == f m) ≡ false) (drawn f n) (f n) (differs f never n m (omega arith))
      (str_ne (f n) (f m) (never n m (omega arith)))

pub drawn-Distinct : (f : ℕ → String) → NeverRepeats f → (n : ℕ) → Distinct (drawn f n)
drawn-Distinct f never zero = tt
drawn-Distinct f never (suc n) =
    Distinct-append (drawn f n) (f n) (differs f never n n (omega arith)) (drawn-Distinct f never n)
