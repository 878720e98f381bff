-- ===== src/Incident/Service.antt =====
-- services/incident-service/app/services/incident_service.py. A function that only changes rows returns
-- the tables; one that may raise returns a `Result`, and nothing of what it did is committed then.
pub mod Writes
pub mod Drafting
pub use Writes.{Env, Call, resource_of}
unfoldable pub use Writes.{add_timeline, add_notification, save, audit}
pub use Drafting.{cbn_row, ndpc_row}
unfoldable pub use Drafting.{existing_regulators, draft_cbn, draft_ndpc, maybe_draft_notifications}
use sc_tpcrs.Prelude.{
  ℕ, ◌+◌, String, Bool, true, false, not, ◌&&◌, ◌||◌, Option, none, some, List, [], ◌∷◌, ◌++◌, map,
  ◌==◌, leb, length, select, find_first, update_where, count_where, one_of, fstring, text_or,
  zero_padded, Result, ok, Error, ◌>>=◌, ◌>>◌, raise_if, or_raise, if◌then◌else◌,
}
use sc_tpcrs.Prelude.Value.{str, null, Details, Detail}
use sc_tpcrs.Audit.{Hashing, record_audit_event}
use sc_tpcrs.Incident.Lifecycle.{
  Settings, can_transition, severity_rank, sla_due_at, category_implies_data_breach,
}
use sc_tpcrs.Incident.Models.{Incident, IncidentTimeline, IncidentNotification, Db}
use sc_tpcrs.Incident.Notifications.{
  cbn_deadline, ndpa_deadline, build_cbn_notification, build_ndpc_notification,
}

-- `f"INC-{count + 1:06d}"`.
unfoldable pub reference_of : ℕ → String
reference_of n = fstring ("INC-" ∷ zero_padded 6 n ∷ [])

unfoldable pub next_reference : Db → String
unfolding reference_of
next_reference db = reference_of (length db.incidents + 1)

-- The keyword arguments of `create_incident`.
pub record NewIncident : Type 0 where
  pub vendor_id : String
  pub title : String
  pub description : String
  pub severity : String
  pub category : String
  pub source : String
  pub source_ref : Option String
  pub personal_data_involved : Bool

-- The row that `create_incident` adds.
unfoldable pub new_incident : Env → Call → NewIncident → String → Db → Incident
unfolding next_reference
new_incident env call args vendor_uuid db = record {
  id = call.new_id;
  reference = next_reference db;
  vendor_id = vendor_uuid;
  title = args.title;
  description = args.description;
  severity = args.severity;
  status = "open";
  category = args.category;
  source = args.source;
  source_ref = args.source_ref;
  assignee = none;
  sla_due_at = sla_due_at env.settings call.now args.severity;
  requires_cbn_notification = leb (severity_rank "High") (severity_rank args.severity);
  requires_ndpa_notification =
      args.personal_data_involved || category_implies_data_breach args.category;
  opened_at = call.now;
  contained_at = none;
  resolved_at = none;
  closed_at = none;
}

abbrev opened_details : NewIncident → Details
opened_details args =
    ("severity", Detail.value (str args.severity))
    ∷ ("category", Detail.value (str args.category))
    ∷ ("source", Detail.value (str args.source))
    ∷ ("source_ref", Detail.value (elim args.source_ref [ none ↦ null | some r ↦ str r ]))
    ∷ []

abbrev pub created_row : NewIncident → String → Incident → IncidentTimeline
created_row args actor incident = record {
  incident_id = incident.id;
  event_type = "created";
  actor = actor;
  message = fstring (
      "Incident opened (" ∷ args.severity ∷ ", " ∷ args.category ∷ ") from " ∷ args.source ∷ "."
      ∷ []);
  from_status = none;
  to_status = some "open";
}

-- The rows that `create_incident` adds around the incident's own.
unfoldable pub open_with : Env → Call → NewIncident → String → Incident → Db → Db
unfolding add_timeline audit
open_with env call args actor incident db =
    audit env call actor "INCIDENT_OPENED" (resource_of incident) (some (opened_details args)) (
      maybe_draft_notifications env incident actor (
        add_timeline (created_row args actor incident)
          (record db { incidents = db.incidents ++ incident ∷ [] })))

unfoldable pub create_incident : Env → Call → String → NewIncident → Db → Result (Incident × Db)
create_incident env call actor args db = do
  vendor_uuid ← or_raise (env.parse_uuid args.vendor_id) (Error.value_error "badly formed UUID")
  let incident = new_incident env call args vendor_uuid db
  ok (incident, open_with env call args actor incident db)

abbrev pub is_from : String → Option String → Bool
is_from source_ref none = false
is_from source_ref (some r) = r == source_ref

unfoldable pub find_by_source_ref : String → Db → Option Incident
find_by_source_ref source_ref db =
    find_first (λ (i : Incident). is_from source_ref i.source_ref) db.incidents

abbrev is_none : Option ℕ → Bool
is_none none = true
is_none (some _) = false

unfoldable pub stamp_status_timestamps : Incident → String → ℕ → Incident
stamp_status_timestamps incident target now =
    if target == "contained" && is_none incident.contained_at
    then record incident { contained_at = some now }
    else if target == "resolved" && is_none incident.resolved_at
    then record incident { resolved_at = some now }
    else if target == "closed" && is_none incident.closed_at
    then if is_none incident.resolved_at
      then record incident { closed_at = some now; resolved_at = some now }
      else record incident { closed_at = some now }
    else incident

-- The incident as `transition_status` leaves it.
unfoldable pub moved : Incident → String → ℕ → Incident
unfolding stamp_status_timestamps
moved incident target now = stamp_status_timestamps (record incident { status = target }) target now

abbrev pub status_row : Incident → String → String → String → IncidentTimeline
status_row incident target actor note = record {
  incident_id = incident.id;
  event_type = "status_change";
  actor = actor;
  message =
      text_or note (fstring ("Status changed " ∷ incident.status ∷ " -> " ∷ target ∷ "." ∷ []));
  from_status = some incident.status;
  to_status = some target;
}

-- The tables as `transition_status` leaves them, when the move is legal.
unfoldable pub moved_db : Env → Call → Incident → String → String → String → Db → Db
unfolding save add_timeline audit
moved_db env call incident target actor note db =
    audit env call actor "INCIDENT_STATUS_CHANGED" (resource_of incident)
      (some (("from", Detail.value (str incident.status)) ∷ ("to", Detail.value (str target)) ∷ []))
      (add_timeline (status_row incident target actor note)
        (save (moved incident target call.now) db))

unfoldable pub transition_status :
    Env → Call → Incident → String → String → String → Db → Result (Incident × Db)
transition_status env call incident target actor note db = do
  let current = incident.status
  raise_if (target == current) (Error.value_error (fstring ("incident already " ∷ current ∷ [])))
  raise_if (not (can_transition current target))
      (Error.value_error (fstring ("illegal transition " ∷ current ∷ " -> " ∷ target ∷ [])))
  ok (moved incident target call.now, moved_db env call incident target actor note db)

-- `f" (was {prev})" if prev else ""`.
abbrev was : Option String → String
was none = ""
was (some prev) = if prev == "" then "" else fstring (" (was " ∷ prev ∷ ")" ∷ [])

abbrev pub assignment_row : Incident → String → String → String → IncidentTimeline
assignment_row incident assignee actor note = record {
  incident_id = incident.id;
  event_type = "assignment";
  actor = actor;
  message = text_or note (fstring ("Assigned to " ∷ assignee ∷ was incident.assignee ∷ "." ∷ []));
  from_status = none;
  to_status = none;
}

unfoldable pub assign_incident :
    Env → Call → Incident → String → String → String → Db → Incident × Db
unfolding save add_timeline audit
assign_incident env call incident assignee actor note db =
    let incident' = record incident { assignee = some assignee } in
    (
      incident',
      audit env call actor "INCIDENT_ASSIGNED" (resource_of incident)
          (some (("assignee", Detail.value (str assignee)) ∷ []))
          (add_timeline (assignment_row incident assignee actor note) (save incident' db)),
    )

abbrev pub note_row : Incident → String → String → IncidentTimeline
note_row incident message actor = record {
  incident_id = incident.id;
  event_type = "note";
  actor = actor;
  message = message;
  from_status = none;
  to_status = none;
}

unfoldable pub add_note : Env → Call → Incident → String → String → Db → Incident × Db
unfolding add_timeline audit
add_note env call incident message actor db = (
  incident,
  audit env call actor "INCIDENT_NOTE_ADDED" (resource_of incident) none
      (add_timeline (note_row incident message actor) db),
)

-- The read helpers. A list is ordered by the database, so its order is not modelled here.
unfoldable pub get_incident : String → Db → Option Incident
get_incident incident_id db = find_first (λ (i : Incident). i.id == incident_id) db.incidents

unfoldable pub get_timeline : String → Db → List IncidentTimeline
get_timeline incident_id db =
    select (λ (t : IncidentTimeline). t.incident_id == incident_id) db.timeline

unfoldable pub get_notifications : String → Db → List IncidentNotification
get_notifications incident_id db =
    select (λ (n : IncidentNotification). n.incident_id == incident_id) db.notifications

unfoldable pub pending_notification_count : Db → ℕ
pending_notification_count db =
    count_where (λ (n : IncidentNotification). n.status == "draft") db.notifications
