-- ===== src/Incident/Service/Writes.antt =====
-- What services/incident-service/app/services/incident_service.py takes from outside, and its single writes.
use sc_tpcrs.Prelude.{ℕ, String, Option, [], ◌∷◌, ◌++◌, ◌==◌, update_where, fstring}
use sc_tpcrs.Prelude.Value.{Details}
use sc_tpcrs.Audit.{Hashing, record_audit_event}
use sc_tpcrs.Incident.Lifecycle.{Settings}
use sc_tpcrs.Incident.Models.{Incident, IncidentTimeline, IncidentNotification, Db}

-- What the service takes from outside: hashing and JSON, `uuid.UUID` (none if it raises `ValueError`),
-- `strftime`, and its settings.
pub record Env : Type 0 where
  pub hashing : Hashing
  pub parse_uuid : String → Option String
  pub strftime : ℕ → String
  pub settings : Settings

-- What a call takes from outside: the time, its text, and the value of `uuid4()` for a new incident.
pub record Call : Type 0 where
  pub now : ℕ
  pub now_text : String
  pub new_id : String

unfoldable pub add_timeline : IncidentTimeline → Db → Db
add_timeline row db = record db { timeline = db.timeline ++ row ∷ [] }

unfoldable pub add_notification : IncidentNotification → Db → Db
add_notification row db = record db { notifications = db.notifications ++ row ∷ [] }

-- The row of the incident is the object that the caller changed.
unfoldable pub save : Incident → Db → Db
save incident db = record db {
  incidents = update_where (λ (i : Incident). i.id == incident.id) (λ _. incident) db.incidents;
}

unfoldable pub audit : Env → Call → String → String → String → Option Details → Db → Db
audit env call actor action resource details db = record db {
  audit_log =
      record_audit_event env.hashing actor action resource details call.now_text db.audit_log;
}

abbrev pub resource_of : Incident → String
resource_of incident = fstring ("incident:" ∷ incident.reference ∷ [])
