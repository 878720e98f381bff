-- ===== src/Incident/Change.antt =====
-- The changes that a successful operation can make to the tables, and what it takes for `uuid4()` to
-- have given a new identifier.
use sc_tpcrs.Prelude.{String, ◌≡◌, Option, none, some, ok}
use sc_tpcrs.Incident.Models.{Incident, Db}
use sc_tpcrs.Incident.Service.{
  Env, Call, NewIncident, create_incident, transition_status, assign_incident, add_note,
  find_by_source_ref, get_incident,
}
use sc_tpcrs.Incident.Effects.{IsFresh}

-- No incident was opened from the source reference, if there is one.
abbrev pub IsUnclaimed : Option String → Db → Type 0
IsUnclaimed none db = Unit
IsUnclaimed (some r) db = find_by_source_ref r db ≡ none

pub data Change (env : Env) (db : Db) (db' : Db) : Type 0 where
  opened :
      (call : Call) (args : NewIncident) (actor : String) (incident : Incident)
      → IsFresh call.new_id db
      → IsUnclaimed args.source_ref db
      → create_incident env call actor args db ≡ ok (incident, db')
      → Change env db db'
  transitioned :
      (call : Call) (incident incident' : Incident) (target actor note : String)
      → get_incident incident.id db ≡ some incident
      → transition_status env call incident target actor note db ≡ ok (incident', db')
      → Change env db db'
  assigned :
      (call : Call) (incident : Incident) (assignee actor note : String)
      → get_incident incident.id db ≡ some incident
      → db' ≡ (assign_incident env call incident assignee actor note db).1
      → Change env db db'
  noted :
      (call : Call) (incident : Incident) (message actor : String)
      → db' ≡ (add_note env call incident message actor db).1
      → Change env db db'

-- Tables that some sequence of changes leads to.
pub data Reach (env : Env) (db : Db) : Db → Type 0 where
  here : Reach env db db
  next : {db' db'' : Db} → Reach env db db' → Change env db' db'' → Reach env db db''
