-- ===== src/Incident/Router.antt =====
-- services/incident-service/app/routers/incidents.py and services/serialize.py. A handler that raises
-- has not committed. Request bodies have passed their schemas.
use sc_tpcrs.Prelude.{
  ℕ, String, ◌==◌, Bool, Option, none, some, List, [], ◌∷◌, Result, ok, Error, ◌>>=◌, or_raise,
  on_value_error, if◌then◌else◌,
}
use sc_tpcrs.Jwt.{TokenPayload, require_role}
use sc_tpcrs.Incident.Lifecycle.{is_sla_breached}
use sc_tpcrs.Incident.Models.{Incident, IncidentTimeline, IncidentNotification, Db, World}
use sc_tpcrs.Incident.Service.{
  Env, Call, NewIncident, create_incident as open_incident, get_incident as fetch,
  transition_status, assign_incident as assign, add_note as note_on, get_timeline as timeline_of,
  get_notifications as notifications_of,
}
use sc_tpcrs.Incident.Events.{publish_incident_event}

abbrev pub writers : List String
writers = "risk_officer" ∷ "ciso" ∷ "admin" ∷ []

pub record IncidentOut : Type 0 where
  pub incident : Incident
  pub sla_breached : Bool

unfoldable pub to_incident_out : Incident → ℕ → IncidentOut
to_incident_out incident now = record {
  incident = incident;
  sla_breached = is_sla_breached incident.sla_due_at incident.status now;
}

pub record IncidentDetailOut : Type 0 where
  pub base : IncidentOut
  pub timeline : List IncidentTimeline
  pub notifications : List IncidentNotification

unfoldable pub detail : Call → String → Db → Option IncidentDetailOut
unfolding to_incident_out
detail call incident_id db = elim (fetch incident_id db) [
  | none ↦ none
  | some incident ↦ some (record {
    base = to_incident_out incident call.now;
    timeline = timeline_of incident_id db;
    notifications = notifications_of incident_id db;
  })
]

abbrev pub not_found : Error
not_found = Error.http 404 "incident not found"

pub record IncidentCreate : Type 0 where
  pub vendor_id : String
  pub title : String
  pub description : String
  pub severity : String
  pub category : String
  pub personal_data_involved : Bool

-- The arguments that `create_incident` of the router passes on.
abbrev pub manual : IncidentCreate → NewIncident
manual body = record {
  vendor_id = body.vendor_id;
  title = body.title;
  description = body.description;
  severity = body.severity;
  category = body.category;
  source = "manual";
  source_ref = none;
  personal_data_involved = body.personal_data_involved;
}

abbrev pub Response : Type 0
Response = Result (Option IncidentDetailOut × World)

unfoldable pub create_incident : Env → Call → TokenPayload → IncidentCreate → World → Response
create_incident env call user body w = do
  writer ← require_role writers user
  (incident, db') ← open_incident env call writer.sub (manual body) w.db
  let (_, bus') = publish_incident_event incident "incident.opened" w.bus
  ok (detail call incident.id db', record w { db = db'; bus = bus' })

unfoldable pub get_incident : Call → String → World → Result IncidentDetailOut
get_incident call incident_id w = or_raise (detail call incident_id w.db) not_found

unfoldable pub update_status :
    Env → Call → TokenPayload → String → String → String → World → Response
update_status env call user incident_id target note w = do
  writer ← require_role writers user
  incident ← or_raise (fetch incident_id w.db) not_found
  (incident', db') ←
      on_value_error (transition_status env call incident target writer.sub note w.db)
        (Error.http 409)
  let event =
      if incident'.status == "resolved" then "incident.resolved" else "incident.status_changed"
  let (_, bus') = publish_incident_event incident' event w.bus
  ok (detail call incident_id db', record w { db = db'; bus = bus' })

unfoldable pub assign_incident :
    Env → Call → TokenPayload → String → String → String → World → Response
assign_incident env call user incident_id assignee note w = do
  writer ← require_role writers user
  incident ← or_raise (fetch incident_id w.db) not_found
  let (_, db') = assign env call incident assignee writer.sub note w.db
  ok (detail call incident_id db', record w { db = db' })

unfoldable pub add_note : Env → Call → TokenPayload → String → String → World → Response
add_note env call user incident_id message w = do
  writer ← require_role writers user
  incident ← or_raise (fetch incident_id w.db) not_found
  let (_, db') = note_on env call incident message writer.sub w.db
  ok (detail call incident_id db', record w { db = db' })

unfoldable pub get_timeline : String → World → Result (List IncidentTimeline)
get_timeline incident_id w = do
  incident ← or_raise (fetch incident_id w.db) not_found
  ok (timeline_of incident_id w.db)

unfoldable pub get_notifications : String → World → Result (List IncidentNotification)
get_notifications incident_id w = do
  incident ← or_raise (fetch incident_id w.db) not_found
  ok (notifications_of incident_id w.db)
