-- ===== src/Incident/Drafted.antt =====
-- The notifications that an opening leaves.
use sc_tpcrs.Prelude.{
  ℕ, ◌+◌, ◌*◌, String, ◌≡◌, refl, ◌∙◌, inl, inr, Bool, true, false, ◌&&◌, ◌||◌, List, [], ◌∷◌, ◌++◌,
  map, ◌==◌, All, select, str_eq_of, Bool-cases, if◌then◌else◌, ok, leb,
}
use sc_tpcrs.Incident.Notifications.{cbn_deadline, ndpa_deadline}
use sc_tpcrs.Incident.Lifecycle.{Settings, severity_rank, category_implies_data_breach}
use sc_tpcrs.Incident.Models.{Incident, IncidentNotification, Db}
use sc_tpcrs.Incident.Service.{
  Env, Call, NewIncident, new_incident, existing_regulators, draft_cbn, draft_ndpc,
  maybe_draft_notifications, open_with, create_incident,
}
use sc_tpcrs.Incident.Effects.{IsFresh, create_incident-Created}
use sc_tpcrs.Incident.Drafts.{selected_append, regulator_of}

none_yet :
    {A : Type 0} (f : IncidentNotification → A) (id : String) (ns : List IncidentNotification)
    → All (λ (n : IncidentNotification). (n.incident_id == id) ≡ false) ns
    → map f (select (λ (m : IncidentNotification). m.incident_id == id) ns) ≡ []
none_yet f id [] h = refl
none_yet f id (n ∷ ns) h = rw h.0 (none_yet f id ns h.1)

-- What is told of a notification: the regulator, the status and the deadline.
abbrev pub Draft : Type 0
Draft = String × String × ℕ

abbrev pub draft_of : IncidentNotification → Draft
draft_of n = (n.regulator, n.status, n.deadline_at)

abbrev pub drafts_for : String → Db → List Draft
drafts_for id db =
    map draft_of (select (λ (n : IncidentNotification). n.incident_id == id) db.notifications)

abbrev pub draft_if : Bool → Draft → List Draft
draft_if b d = if b then d ∷ [] else []

-- The drafts that are due for an incident that is opened at a time.
abbrev pub drafts_due : Settings → ℕ → String → String → Bool → List Draft
drafts_due settings now severity category personal_data_involved =
    draft_if (severity == "High" || severity == "Critical")
      ("CBN", "draft", now + settings.cbn_deadline_hours * 3600)
    ++ draft_if (personal_data_involved || category == "DATA_BREACH")
        ("NDPC", "draft", now + settings.ndpa_deadline_hours * 3600)

is_material :
    (severity : String)
    → leb (severity_rank "High") (severity_rank severity)
      ≡ (severity == "High" || severity == "Critical")
unfolding severity_rank
is_material severity = elim (Bool-cases (severity == "Low")) [
  | inl low ↦ rw (str_eq_of severity "Low" low) refl
  | inr not_low ↦ elim (Bool-cases (severity == "Medium")) [
    | inl medium ↦ rw (str_eq_of severity "Medium" medium) refl
    | inr not_medium ↦
        rank (severity == "Low") (severity == "Medium") (severity == "High")
          (severity == "Critical") not_low not_medium
  ]
]
  where
    rank :
        (l m h c : Bool)
        → l ≡ false
        → m ≡ false
        → leb 2 (if l then 0 else if m then 1 else if h then 2 else if c then 3 else 0) ≡ (h || c)
    rank l m true c el em = rw (el, em) refl
    rank l m false true el em = rw (el, em) refl
    rank l m false false el em = rw (el, em) refl

and_true : (b : Bool) → (b && true) ≡ b
and_true true = refl
and_true false = refl

drafts_for-draft_cbn :
    (env : Env) (i : Incident) (actor : String) (db : Db)
    → drafts_for i.id (draft_cbn env i actor db)
      ≡ drafts_for i.id db ++ ("CBN", "draft", cbn_deadline env.settings i.opened_at) ∷ []
unfolding draft_cbn
drafts_for-draft_cbn env i actor db = selected_append draft_of i.id db.notifications _ refl

drafts_for-draft_ndpc :
    (env : Env) (i : Incident) (actor : String) (db : Db)
    → drafts_for i.id (draft_ndpc env i actor db)
      ≡ drafts_for i.id db ++ ("NDPC", "draft", ndpa_deadline env.settings i.opened_at) ∷ []
unfolding draft_ndpc
drafts_for-draft_ndpc env i actor db = selected_append draft_of i.id db.notifications _ refl

-- Where no regulator has a notification, what is required is drafted.
drafts_for-maybe_draft_notifications :
    (env : Env) (i : Incident) (actor : String) (db : Db)
    → existing_regulators i.id db ≡ []
    → drafts_for i.id db ≡ []
    → drafts_for i.id (maybe_draft_notifications env i actor db)
      ≡ draft_if i.requires_cbn_notification ("CBN", "draft", cbn_deadline env.settings i.opened_at)
        ++ draft_if i.requires_ndpa_notification
            ("NDPC", "draft", ndpa_deadline env.settings i.opened_at)
unfolding maybe_draft_notifications
drafts_for-maybe_draft_notifications env i actor db none_told none_there =
    rw (none_told, and_true, and_true)
      (choose i.requires_cbn_notification i.requires_ndpa_notification)
  where
    choose :
        (b c : Bool)
        → (let db' = if b then draft_cbn env i actor db else db in
            drafts_for i.id (if c then draft_ndpc env i actor db' else db')
            ≡ draft_if b ("CBN", "draft", cbn_deadline env.settings i.opened_at)
              ++ draft_if c ("NDPC", "draft", ndpa_deadline env.settings i.opened_at))
    choose false false = none_there
    choose true false = rw (drafts_for-draft_cbn env i actor db, none_there) refl
    choose false true = rw (drafts_for-draft_ndpc env i actor db, none_there) refl
    choose true true =
        rw
          (
            drafts_for-draft_ndpc env i actor (draft_cbn env i actor db),
            drafts_for-draft_cbn env i actor db,
            none_there,
          )
          refl

opened-drafts_for :
    (env : Env) (call : Call) (args : NewIncident) (actor v : String) (db : Db)
    → IsFresh call.new_id db
    → drafts_for call.new_id (open_with env call args actor (new_incident env call args v db) db)
      ≡ drafts_due env.settings call.now args.severity args.category args.personal_data_involved
unfolding open_with new_incident existing_regulators cbn_deadline ndpa_deadline
    category_implies_data_breach
opened-drafts_for env call args actor v db fresh =
    drafts_for-maybe_draft_notifications env (new_incident env call args v db) actor _
      (none_yet regulator_of call.new_id db.notifications fresh.notifications)
      (none_yet draft_of call.new_id db.notifications fresh.notifications)
    ∙ rw (is_material args.severity) refl

-- A successful opening under a new identifier leaves the incident with one notification for each
-- regulator that is due, a draft with that regulator's deadline, and with no other: the CBN for the
-- severities High and Critical, and the NDPC where personal data is involved or the category is
-- DATA_BREACH.
pub create_incident-drafts_due :
    (env : Env) (call : Call) (actor : String) (args : NewIncident) (db : Db) {incident : Incident}
    {db' : Db}
    → IsFresh call.new_id db
    → create_incident env call actor args db ≡ ok (incident, db')
    → drafts_for call.new_id db'
      ≡ drafts_due env.settings call.now args.severity args.category args.personal_data_involved
create_incident-drafts_due env call actor args db fresh h =
    let c = create_incident-Created env call actor args db h in
    rw (c.tables, c.row) (opened-drafts_for env call args actor c.vendor_uuid db fresh)
