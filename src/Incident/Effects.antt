-- ===== src/Incident/Effects.antt =====
-- What each operation of incident_service.py does to the tables, and to the status that the timeline
-- records of an incident.
use sc_tpcrs.Prelude.{
  Option-cases, ℕ, String, ◌≡◌, refl, ◌∙◌, ap, inl, inr, Bool, true, false, not, ◌&&◌, Option, none,
  some, List, [], ◌∷◌, ◌++◌, ◌==◌, arith, All, one_of, ok, if◌then◌else◌,
}
use sc_tpcrs.Audit.{verify_chain}
use sc_tpcrs.Audit.Chain.{verify_chain-record_audit_event}
use sc_tpcrs.Incident.Lifecycle.{can_transition}
use sc_tpcrs.Incident.Models.{Incident, IncidentTimeline, IncidentNotification, Db}
use sc_tpcrs.Incident.Service.{
  Env, Call, NewIncident, created_row, cbn_row, ndpc_row, status_row, assignment_row, note_row,
  moved_db, draft_cbn, draft_ndpc, maybe_draft_notifications, new_incident, open_with,
  create_incident, moved, transition_status, assign_incident, add_note, save, existing_regulators,
}

-- `later`, or else `earlier`.
abbrev pub latest : Option String → Option String → Option String
latest none earlier = earlier
latest (some s) earlier = some s

-- The last status that the timeline records of an incident.
abbrev pub status_of : String → List IncidentTimeline → Option String
status_of id [] = none
status_of id (row ∷ rows) =
    latest (status_of id rows) (if row.incident_id == id then row.to_status else none)

latest_assoc : (a b c : Option String) → latest (latest a b) c ≡ latest a (latest b c)
latest_assoc none b c = refl
latest_assoc (some s) b c = refl

status_of-append :
    (id : String) (xs ys : List IncidentTimeline)
    → status_of id (xs ++ ys) ≡ latest (status_of id ys) (status_of id xs)
status_of-append id [] ys = ground arith
status_of-append id (x ∷ xs) ys =
    ap (λ o. latest o (if x.incident_id == id then x.to_status else none))
      (status_of-append id xs ys)
    ∙ latest_assoc (status_of id ys) (status_of id xs)
        (if x.incident_id == id then x.to_status else none)

-- A row with no status leaves it.
status_of-unmarked :
    (id : String) (row : IncidentTimeline) (rows : List IncidentTimeline)
    → row.to_status ≡ none
    → status_of id (rows ++ row ∷ []) ≡ status_of id rows
status_of-unmarked id row rows e = status_of-append id rows (row ∷ []) ∙ ground arith

-- What each draft keeps, drafting keeps.
pub maybe_draft_notifications-keeps :
    (P : Db → Type 0) (env : Env) (incident : Incident) (actor : String)
    → ((db : Db) → P db → P (draft_cbn env incident actor db))
    → ((db : Db) → P db → P (draft_ndpc env incident actor db))
    → (db : Db) → P db
    → P (maybe_draft_notifications env incident actor db)
unfolding maybe_draft_notifications
maybe_draft_notifications-keeps P env incident actor cbn ndpc db h =
    choose
      (incident.requires_cbn_notification
        && not (one_of "CBN" (existing_regulators incident.id db)))
      (incident.requires_ndpa_notification
        && not (one_of "NDPC" (existing_regulators incident.id db)))
  where
    choose :
        (b c : Bool)
        → (let db' = if b then draft_cbn env incident actor db else db in
            P (if c then draft_ndpc env incident actor db' else db'))
    choose false false = h
    choose true false = cbn db h
    choose false true = ndpc db h
    choose true true = ndpc (draft_cbn env incident actor db) (cbn db h)

-- Drafting notifications changes no incident, no status and no audit row.
pub record DraftsOnly (db db' : Db) : Type 0 where
  pub incidents : db'.incidents ≡ db.incidents
  pub audit_log : db'.audit_log ≡ db.audit_log
  pub statuses : (id : String) → status_of id db'.timeline ≡ status_of id db.timeline

pub maybe_draft_notifications-DraftsOnly :
    (env : Env) (incident : Incident) (actor : String) (db : Db)
    → DraftsOnly db (maybe_draft_notifications env incident actor db)
unfolding draft_cbn draft_ndpc
maybe_draft_notifications-DraftsOnly env incident actor db =
    maybe_draft_notifications-keeps (DraftsOnly db) env incident actor
      (λ d h. record {
        incidents = h.incidents;
        audit_log = h.audit_log;
        statuses =
            λ id. status_of-unmarked id (cbn_row incident actor) d.timeline refl ∙ h.statuses id;
      })
      (λ d h. record {
        incidents = h.incidents;
        audit_log = h.audit_log;
        statuses =
            λ id. status_of-unmarked id (ndpc_row incident actor) d.timeline refl ∙ h.statuses id;
      })
      db (record { incidents = refl; audit_log = refl; statuses = λ id. refl })

-- The timeline tells the status of every incident.
abbrev pub IsTracked : Db → Type 0
IsTracked db = All (λ (i : Incident). status_of i.id db.timeline ≡ some i.status) db.incidents

-- No row is about the identifier.
pub record IsFresh (id : String) (db : Db) : Type 0 where
  pub incidents : All (λ (i : Incident). (i.id == id) ≡ false) db.incidents
  pub notifications :
      All (λ (n : IncidentNotification). (n.incident_id == id) ≡ false) db.notifications

-- What opening an incident does to the tables.
pub record Opened (env : Env) (db : Db) (incident : Incident) (db' : Db) : Type 0 where
  pub incidents : db'.incidents ≡ db.incidents ++ incident ∷ []
  pub chain : verify_chain env.hashing db'.audit_log ≡ verify_chain env.hashing db.audit_log
  pub statuses :
      (id : String)
      → status_of id db'.timeline
        ≡ (if incident.id == id then some "open" else status_of id db.timeline)

-- What giving an incident a status, or none, does to the tables.
pub record Saved (env : Env) (db : Db) (incident : Incident) (status : Option String) (db' : Db)
    : Type 0 where
  pub incidents : db'.incidents ≡ (save incident db).incidents
  pub notifications : db'.notifications ≡ db.notifications
  pub chain : verify_chain env.hashing db'.audit_log ≡ verify_chain env.hashing db.audit_log
  pub statuses :
      (id : String)
      → status_of id db'.timeline
        ≡ latest (if incident.id == id then status else none) (status_of id db.timeline)

pub open_with-Opened :
    (env : Env) (call : Call) (args : NewIncident) (actor : String) (incident : Incident) (db : Db)
    → Opened env db incident (open_with env call args actor incident db)
unfolding open_with
open_with-Opened env call args actor incident db = record {
  incidents = drafts.incidents;
  chain =
      verify_chain-record_audit_event env.hashing _ _ _ _ _ _
      ∙ ap (verify_chain env.hashing) drafts.audit_log;
  statuses = λ id.
      drafts.statuses id
      ∙ status_of-append id db.timeline (created_row args actor incident ∷ [])
      ∙ ground arith;
}
  where
    start : Db
    start = record db {
      incidents = db.incidents ++ incident ∷ [];
      timeline = db.timeline ++ created_row args actor incident ∷ [];
    }

    drafts : DraftsOnly start (maybe_draft_notifications env incident actor start)
    drafts = maybe_draft_notifications-DraftsOnly env incident actor start

pub id-moved :
    (incident : Incident) (target : String) (now : ℕ) → (moved incident target now).id ≡ incident.id
unfolding moved
id-moved incident target now = ground arith

pub reference-moved :
    (incident : Incident) (target : String) (now : ℕ)
    → (moved incident target now).reference ≡ incident.reference
unfolding moved
reference-moved incident target now = ground arith

pub source_ref-moved :
    (incident : Incident) (target : String) (now : ℕ)
    → (moved incident target now).source_ref ≡ incident.source_ref
unfolding moved
source_ref-moved incident target now = ground arith

pub moved_db-Saved :
    (env : Env) (call : Call) (incident : Incident) (target actor note : String) (db : Db)
    → Saved env db
        (moved incident target call.now)
        (some target)
        (moved_db env call incident target actor note db)
unfolding moved_db
moved_db-Saved env call incident target actor note db = record {
  incidents = refl;
  notifications = refl;
  chain = verify_chain-record_audit_event env.hashing _ _ _ _ _ _;
  statuses = λ id.
      rw id-moved (status_of-append id db.timeline (status_row incident target actor note ∷ []));
}

-- A successful transition.
pub record Transitioned (env : Env) (call : Call) (incident : Incident) (target actor note : String)
    (db : Db) (incident' : Incident) (db' : Db) : Type 0 where
  pub row : incident' ≡ moved incident target call.now
  pub tables : db' ≡ moved_db env call incident target actor note db
  pub legal : can_transition incident.status target ≡ true

pub transition_status-Transitioned :
    (env : Env) (call : Call) (incident : Incident) (target actor note : String) (db : Db)
    {incident' : Incident} {db' : Db}
    → transition_status env call incident target actor note db ≡ ok (incident', db')
    → Transitioned env call incident target actor note db incident' db'
unfolding transition_status
transition_status-Transitioned env call incident target actor note db h = ground arith

pub assign_incident-Saved :
    (env : Env) (call : Call) (incident : Incident) (assignee actor note : String) (db : Db)
    → let (incident', db') = assign_incident env call incident assignee actor note db in
      Saved env db incident' none db'
unfolding assign_incident
assign_incident-Saved env call incident assignee actor note db = record {
  incidents = refl;
  notifications = refl;
  chain = verify_chain-record_audit_event env.hashing _ _ _ _ _ _;
  statuses =
      λ id. status_of-append id db.timeline (assignment_row incident assignee actor note ∷ []);
}

pub add_note-Saved :
    (env : Env) (call : Call) (incident : Incident) (message actor : String) (db : Db)
    → let (_, db') = add_note env call incident message actor db in
      (db'.incidents ≡ db.incidents)
      × (db'.notifications ≡ db.notifications)
      × (verify_chain env.hashing db'.audit_log ≡ verify_chain env.hashing db.audit_log)
      × ((id : String) → status_of id db'.timeline ≡ status_of id db.timeline)
unfolding add_note
add_note-Saved env call incident message actor db = (
  refl,
  refl,
  verify_chain-record_audit_event env.hashing _ _ _ _ _ _,
  λ id. status_of-unmarked id (note_row incident message actor) db.timeline refl,
)

-- A successful opening.
pub record Created (env : Env) (call : Call) (args : NewIncident) (actor : String) (db : Db)
    (incident : Incident) (db' : Db) : Type 0 where
  pub vendor_uuid : String
  pub parsed : env.parse_uuid args.vendor_id ≡ some vendor_uuid
  pub row : incident ≡ new_incident env call args vendor_uuid db
  pub tables : db' ≡ open_with env call args actor incident db

pub create_incident-Created :
    (env : Env) (call : Call) (actor : String) (args : NewIncident) (db : Db) {incident : Incident}
    {db' : Db}
    → create_incident env call actor args db ≡ ok (incident, db')
    → Created env call args actor db incident db'
unfolding create_incident
create_incident-Created env call actor args db h =
    elim (Option-cases (env.parse_uuid args.vendor_id)) [
      | inl e ↦ cc (h, e)
      | inr (v, e) ↦ record {
        vendor_uuid = v;
        parsed = e;
        row = ground arith;
        tables = ground arith;
      }
    ]
