-- ===== src/Incident/Models.antt =====
-- services/incident-service/app/models.py and the schema of services/serialize.py. The columns that the
-- database fills by itself (`created_at`, `updated_at`, the keys of timeline rows and notifications)
-- are left out: rows stand in the order in which they were added.
use sc_tpcrs.Prelude.{ℕ, String, Bool, Option, List}
use sc_tpcrs.Audit.{AuditRow}
use sc_tpcrs.Kafka.{Bus}

pub record Incident : Type 0 where
  pub id : String
  pub reference : String
  pub vendor_id : String
  pub title : String
  pub description : String
  pub severity : String
  pub status : String
  pub category : String
  pub source : String
  pub source_ref : Option String
  pub assignee : Option String
  pub sla_due_at : ℕ
  pub requires_cbn_notification : Bool
  pub requires_ndpa_notification : Bool
  pub opened_at : ℕ
  pub contained_at : Option ℕ
  pub resolved_at : Option ℕ
  pub closed_at : Option ℕ

pub record IncidentTimeline : Type 0 where
  pub incident_id : String
  pub event_type : String
  pub actor : String
  pub message : String
  pub from_status : Option String
  pub to_status : Option String

pub record IncidentNotification : Type 0 where
  pub incident_id : String
  pub regulator : String
  pub status : String
  pub deadline_at : ℕ
  pub body : String

-- The tables of the service's database.
pub record Db : Type 0 where
  pub incidents : List Incident
  pub timeline : List IncidentTimeline
  pub notifications : List IncidentNotification
  pub audit_log : List AuditRow

-- The database and the event producer.
pub record World : Type 0 where
  pub db : Db
  pub bus : Bus
