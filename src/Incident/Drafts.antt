-- ===== src/Incident/Drafts.antt =====
-- The regulatory notifications that incident_service.py drafts.
use sc_tpcrs.Prelude.{
  String, ◌≡◌, refl, sym, ◌∙◌, Bool, true, false, not, ◌&&◌, ◌||◌, List, [], ◌∷◌, ◌++◌, map, ◌==◌,
  arith, select, select-append, one_of, eq_refl, if◌then◌else◌,
}
use mathlib.Core.List.{map-append, append-nil, append_assoc}
use sc_tpcrs.Incident.Models.{Incident, IncidentNotification, Db}
use sc_tpcrs.Incident.Service.{
  Env, existing_regulators, draft_cbn, draft_ndpc, maybe_draft_notifications,
}

one_of-append :
    (s : String) (xs ys : List String) → one_of s (xs ++ ys) ≡ (one_of s xs || one_of s ys)
one_of-append s [] ys = refl
one_of-append s (x ∷ xs) ys = ground (arith, one_of-append s xs ys)

-- The rows of an incident in a table that a row of it was added to.
pub selected_append :
    {A : Type 0} (f : IncidentNotification → A) (id : String) (ns : List IncidentNotification)
    (n : IncidentNotification)
    → n.incident_id ≡ id
    → map f (select (λ (m : IncidentNotification). m.incident_id == id) (ns ++ n ∷ []))
      ≡ map f (select (λ (m : IncidentNotification). m.incident_id == id) ns) ++ f n ∷ []
selected_append f id ns n it =
    rw
      (
        select-append (λ (m : IncidentNotification). m.incident_id == id) ns (n ∷ []),
        map-append,
        it,
        eq_refl id,
      )
      refl

abbrev pub regulator_of : IncidentNotification → String
regulator_of n = n.regulator

existing-draft_cbn :
    (env : Env) (i : Incident) (actor : String) (db : Db)
    → existing_regulators i.id (draft_cbn env i actor db)
      ≡ existing_regulators i.id db ++ "CBN" ∷ []
unfolding existing_regulators draft_cbn
existing-draft_cbn env i actor db = selected_append regulator_of i.id db.notifications _ refl

existing-draft_ndpc :
    (env : Env) (i : Incident) (actor : String) (db : Db)
    → existing_regulators i.id (draft_ndpc env i actor db)
      ≡ existing_regulators i.id db ++ "NDPC" ∷ []
unfolding existing_regulators draft_ndpc
existing-draft_ndpc env i actor db = selected_append regulator_of i.id db.notifications _ refl

abbrev pub when : Bool → String → List String
when b s = if b then s ∷ [] else []

-- The drafts that are due and that no notification is there for.
abbrev pub missing_drafts : Incident → List String → List String
missing_drafts i existing =
    when (i.requires_cbn_notification && not (one_of "CBN" existing)) "CBN"
    ++ when (i.requires_ndpa_notification && not (one_of "NDPC" existing)) "NDPC"

pub existing-maybe_draft_notifications :
    (env : Env) (i : Incident) (actor : String) (db : Db)
    → existing_regulators i.id (maybe_draft_notifications env i actor db)
      ≡ existing_regulators i.id db ++ missing_drafts i (existing_regulators i.id db)
unfolding maybe_draft_notifications
existing-maybe_draft_notifications env i actor db =
    choose (i.requires_cbn_notification && not (one_of "CBN" (existing_regulators i.id db)))
      (i.requires_ndpa_notification && not (one_of "NDPC" (existing_regulators i.id db)))
  where
    choose :
        (b c : Bool)
        → (let db' = if b then draft_cbn env i actor db else db in
            existing_regulators i.id (if c then draft_ndpc env i actor db' else db')
            ≡ existing_regulators i.id db ++ (when b "CBN" ++ when c "NDPC"))
    choose false false = sym (append-nil (existing_regulators i.id db))
    choose true false = existing-draft_cbn env i actor db
    choose false true = existing-draft_ndpc env i actor db
    choose true true =
        existing-draft_ndpc env i actor (draft_cbn env i actor db)
        ∙ rw (existing-draft_cbn env i actor db)
            (append_assoc (existing_regulators i.id db) ("CBN" ∷ []) ("NDPC" ∷ []))

-- Nothing that is due is missing after drafting.
settled :
    (i : Incident) (existing : List String)
    → missing_drafts i (existing ++ missing_drafts i existing) ≡ []
settled i existing =
    rw
      (
        one_of-append "CBN" existing (missing_drafts i existing),
        one_of-append "NDPC" existing (missing_drafts i existing),
      )
      (cases i.requires_cbn_notification i.requires_ndpa_notification (one_of "CBN" existing)
        (one_of "NDPC" existing))
  where
    cases :
        (b c hb hc : Bool)
        → (let due = when (b && not hb) "CBN" ++ when (c && not hc) "NDPC" in
            when (b && not (hb || one_of "CBN" due)) "CBN"
              ++ when (c && not (hc || one_of "NDPC" due)) "NDPC"
            ≡ [])
    cases true true true true = refl
    cases true true true false = refl
    cases true true false true = refl
    cases true true false false = refl
    cases true false true hc = refl
    cases true false false hc = refl
    cases false true hb true = refl
    cases false true hb false = refl
    cases false false hb hc = refl

undrafted :
    (env : Env) (i : Incident) (actor : String) (db : Db)
    → missing_drafts i (existing_regulators i.id db) ≡ []
    → maybe_draft_notifications env i actor db ≡ db
unfolding maybe_draft_notifications
undrafted env i actor db =
    choose (i.requires_cbn_notification && not (one_of "CBN" (existing_regulators i.id db)))
      (i.requires_ndpa_notification && not (one_of "NDPC" (existing_regulators i.id db)))
  where
    choose :
        (b c : Bool)
        → when b "CBN" ++ when c "NDPC" ≡ []
        → (let db' = if b then draft_cbn env i actor db else db in
            (if c then draft_ndpc env i actor db' else db') ≡ db)
    choose false false h = refl
    choose true c h = cc
    choose false true h = cc

-- Drafting again, by whomever, changes nothing after notifications were drafted once.
pub maybe_draft_notifications_idempotent :
    (env : Env) (i : Incident) (actor again : String) (db : Db)
    → let db' = maybe_draft_notifications env i actor db in
      maybe_draft_notifications env i again db' ≡ db'
maybe_draft_notifications_idempotent env i actor again db = undrafted env i again _ (
    rw (existing-maybe_draft_notifications env i actor db)
      (settled i (existing_regulators i.id db)))
