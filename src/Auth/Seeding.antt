-- ===== src/Auth/Seeding.antt =====
-- Seeding the demo users: it never fails on unique addresses, and a second run creates no one.
use sc_tpcrs.Prelude.{
  eq_refl, String, ◌≡◌, refl, sym, subst, subst, ◌∙◌, inl, inr, Bool, true, none, some, List, [],
  ◌∷◌, ◌++◌, map, ◌==◌, arith, All, find_first, length, Option-cases, ok,
}
use mathlib.Core.List.{map-append, append_assoc, append-nil}
use sc_tpcrs.Prelude.Distinct.{Distinct, Distinct-append, find_first-fresh}
use sc_tpcrs.Jwt.{Signing}
use sc_tpcrs.Audit.{Hashing}
use sc_tpcrs.Auth.Models.{
  User, Db, Settings, is_development, Call, DemoUser, demo_users, demo_password,
}
use sc_tpcrs.Auth.Security.{Crypto}
use sc_tpcrs.Auth.Routes.{SeedResult, demo_row, seed_user, seed_all, seed_audit, dev_seed_users}
use sc_tpcrs.Auth.Login.{emails, user_of, get_user_by_email-find_first}

-- The demo user has an account.
abbrev IsPresent : Db → DemoUser → Type 0
IsPresent db demo = (u : User) × (user_of db demo.email ≡ some u)

find_first-append_left :
    {A : Type 0} (p : A → Bool) (xs ys : List A) (x : A)
    → find_first p xs ≡ some x
    → find_first p (xs ++ ys) ≡ some x
find_first-append_left p [] ys x h = cc
find_first-append_left p (y ∷ xs) ys x h = ground (arith, find_first-append_left p xs ys x)

find_first-append_new :
    {A : Type 0} (p : A → Bool) (xs : List A) (x : A)
    → p x ≡ true
    → find_first p xs ≡ none
    → find_first p (xs ++ x ∷ []) ≡ some x
find_first-append_new p [] x h e = rw h refl
find_first-append_new p (y ∷ xs) x h e = ground (arith, find_first-append_new p xs x h)

module _ (hashing : Hashing) (signing : Signing) (crypto : Crypto) (settings : Settings) where
  abbrev round : Call → DemoUser → SeedResult → Db → SeedResult × Db
  round call demo r db =
      seed_user hashing signing crypto settings call demo (r, db) (user_of db demo.email)

  -- What the loop keeps, and what it makes sure of.
  record Seeded (demos : List DemoUser) (before after : Db) : Type 0 where
    unique : Distinct (emails after)
    kept : (d : DemoUser) → IsPresent before d → IsPresent after d
    present : All (IsPresent after) demos

  seed_user-Seeded :
      (call : Call) (demo : DemoUser) (r : SeedResult) (db : Db)
      → Distinct (emails db)
      → Seeded (demo ∷ []) db (round call demo r db).1
  unfolding seed_user demo_row
  seed_user-Seeded call demo r db d = elim (Option-cases (user_of db demo.email)) [
    | inl missing ↦
        let row : User = demo_row hashing signing crypto settings call demo (length db.users) in
        rw missing (record {
          unique = rw (map-append (λ (u : User). u.email) db.users (row ∷ [])) (
              Distinct-append (emails db) demo.email
                (find_first-fresh (λ (u : User). u.email) demo.email db.users missing) d);
          kept = λ x p. (
            p.0,
            find_first-append_left (λ (u : User). u.email == x.email) db.users (row ∷ []) p.0 p.1,
          );
          present = (
            (
              row,
              find_first-append_new (λ (u : User). u.email == demo.email) db.users row
                  (eq_refl demo.email) missing,
            ),
            tt,
          );
        })
    | inr (u, there) ↦ rw there (record { unique = d; kept = λ x p. p; present = ((u, there), tt) })
  ]

  -- The loop always succeeds where addresses are unique.
  seed_all-Seeded :
      (call : Call) (demos : List DemoUser) (r : SeedResult) (db : Db)
      → Distinct (emails db)
      → (s : SeedResult × Db) × (seed_all hashing signing crypto settings call demos (r, db) ≡ ok s)
        × Seeded demos db s.1
  unfolding seed_all
  seed_all-Seeded call [] r db d =
      ((r, db), refl, record { unique = d; kept = λ x p. p; present = tt })
  seed_all-Seeded call (demo ∷ demos) r db d =
      let one = seed_user-Seeded call demo r db d in
      let next = round call demo r db in
      let (s, e, all) = seed_all-Seeded call demos next.0 next.1 one.unique in
      (
        s,
        rw (get_user_by_email-find_first db demo.email d) e,
        record {
          unique = all.unique;
          kept = λ x p. all.kept x (one.kept x p);
          present = (all.kept demo one.present.0, all.present);
        },
      )

  -- Where everyone is present, the loop only lists them.
  seed_all-present :
      (call : Call) (demos : List DemoUser) (r : SeedResult) (db : Db)
      → Distinct (emails db)
      → All (IsPresent db) demos
      → seed_all hashing signing crypto settings call demos (r, db)
        ≡ ok (
          record r { already_existed = r.already_existed ++ map (λ (x : DemoUser). x.email) demos },
          db,
        )
  unfolding seed_all seed_user
  seed_all-present call [] r db d all = rw (append-nil r.already_existed) refl
  seed_all-present call (demo ∷ demos) r db d all =
      rw (get_user_by_email-find_first db demo.email d, (all.0).1)
        (seed_all-present call demos
            (record r { already_existed = r.already_existed ++ demo.email ∷ [] }) db d all.1
          ∙ rw
              (append_assoc r.already_existed (demo.email ∷ [])
                (map (λ (x : DemoUser). x.email) demos))
              refl)

  -- A run of the seeding and one after it.
  pub record SeedsOnce (call again : Call) (db : Db) : Type 0 where
    pub result : SeedResult
    pub after : Db
    pub first : dev_seed_users hashing signing crypto settings call db ≡ ok (result, after)
    pub unique : Distinct (emails after)
    pub present : All (IsPresent after) demo_users
    pub second :
        dev_seed_users hashing signing crypto settings again after
        ≡ ok (
          record {
            created = [];
            already_existed = map (λ (x : DemoUser). x.email) demo_users;
            password = demo_password;
          },
          after,
        )

  seed_audit-users :
      (call : Call) (created : List String) (db : Db)
      → (seed_audit hashing signing crypto settings call created db).users ≡ db.users
  unfolding seed_audit
  seed_audit-users call [] db = refl
  seed_audit-users call (email ∷ emails) db = refl

  -- In development, where addresses are unique, seeding succeeds, gives every demo user an account
  -- and keeps addresses unique; seeding again succeeds, creates no one and changes nothing.
  pub dev_seed_users_idempotent :
      (call again : Call) (db : Db)
      → is_development settings ≡ true
      → Distinct (emails db)
      → SeedsOnce call again db
  unfolding dev_seed_users seed_audit
  dev_seed_users_idempotent call again db dev d =
      let none_yet : SeedResult = record {
        created = [];
        already_existed = [];
        password = demo_password;
      } in
      let (s, e, all) = seed_all-Seeded call demo_users none_yet db d in
      let after = seed_audit hashing signing crypto settings call (s.0).created s.1 in
      let same : after.users ≡ (s.1).users = seed_audit-users call (s.0).created s.1 in
      let unique : Distinct (emails after) =
        subst (λ us. Distinct (map (λ (u : User). u.email) us)) (sym same) all.unique in
      let present : All (IsPresent after) demo_users =
        subst
          (λ us.
            All
              (λ (x : DemoUser).
                (u : User) × (find_first (λ (v : User). v.email == x.email) us ≡ some u))
              demo_users)
          (sym same) all.present in
      record {
        result = s.0;
        after = after;
        first = rw (dev, e) refl;
        unique = unique;
        present = present;
        second = rw (dev, seed_all-present again demo_users none_yet after unique present) refl;
      }
