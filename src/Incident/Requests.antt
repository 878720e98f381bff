-- ===== src/Incident/Requests.antt =====
-- What a successful request to change an incident does to the tables: one change of its kind, to that incident.
use sc_tpcrs.Prelude.{
  ℕ, String, ◌≡◌, refl, sym, ◌∙◌, ap, true, inl, inr, Option, none, some, List, [], ◌∷◌, ◌++◌, ◌==◌,
  arith, bind-ok, or_raise-ok, on_value_error-ok, find_first, update_where, one_of, ok, Error,
  or_raise, on_value_error, ok-injective, Bool-cases,
}
use sc_tpcrs.Jwt.{TokenPayload, require_role}
use sc_tpcrs.Incident.Lifecycle.{can_transition}
use sc_tpcrs.Incident.Models.{Incident, IncidentTimeline, Db, World}
use sc_tpcrs.Incident.Service.{
  Env, Call, get_incident, transition_status, moved, moved_db, assign_incident, status_row,
  assignment_row,
}
use sc_tpcrs.Incident.Effects.{
  transition_status-Transitioned, id-moved, reference-moved, source_ref-moved,
}
use sc_tpcrs.Incident.Change.{Change, transitioned, assigned}
use sc_tpcrs.Incident.Operations.{refetch}
use sc_tpcrs.Incident.Router
use sc_tpcrs.Incident.Router.{IncidentCreate, IncidentDetailOut}

-- The guard gives the user back.
require_role-ok :
    (roles : List String) (user writer : TokenPayload)
    → require_role roles user ≡ ok writer
    → (writer ≡ user) × (one_of user.role roles ≡ true)
unfolding require_role
require_role-ok roles user writer h = elim (Bool-cases (one_of user.role roles)) [
  | inl role ↦ (sym (ok-injective (rw (require_role, role) at h)), role)
  | inr none_of ↦ cc (rw (require_role, none_of) at h)
]

status-moved :
    (incident : Incident) (target : String) (now : ℕ) → (moved incident target now).status ≡ target
unfolding moved
status-moved incident target now = ground arith

assignee-moved :
    (incident : Incident) (target : String) (now : ℕ)
    → (moved incident target now).assignee ≡ incident.assignee
unfolding moved
assignee-moved incident target now = ground arith

-- The incident of an identifier is given a status, with one row in the timeline, and nothing happens to the others.
pub record Transition (env : Env) (user : TokenPayload) (id target : String) (db db' : Db)
    : Type 0 where
  pub allowed : one_of user.role ("risk_officer" ∷ "ciso" ∷ "admin" ∷ []) ≡ true
  pub incident : Incident
  pub found : find_first (λ (i : Incident). i.id == id) db.incidents ≡ some incident
  pub legal : can_transition incident.status target ≡ true
  pub incident' : Incident
  pub same_id : incident'.id ≡ incident.id
  pub reference : incident'.reference ≡ incident.reference
  pub source_ref : incident'.source_ref ≡ incident.source_ref
  pub assignee : incident'.assignee ≡ incident.assignee
  pub status : incident'.status ≡ target
  pub incidents :
      db'.incidents
      ≡ update_where (λ (i : Incident). i.id == incident'.id) (λ _. incident') db.incidents
  pub row : IncidentTimeline
  pub about : row.incident_id ≡ incident.id
  pub actor : row.actor ≡ user.sub
  pub from_status : row.from_status ≡ some incident.status
  pub to_status : row.to_status ≡ some target
  pub timeline : db'.timeline ≡ db.timeline ++ row ∷ []
  pub notifications : db'.notifications ≡ db.notifications
  pub change : Change env db db'

-- A successful request to change a status was a writer's, and makes one change of the tables: the
-- incident that was asked for is given the status, which its old one may go to, with one row in the
-- timeline under the user's name; the other incidents and the notifications are as before.
pub update_status_moves :
    (env : Env) (call : Call) (user : TokenPayload) (id target note : String) (w w' : World)
    (out : Option IncidentDetailOut)
    → Router.update_status env call user id target note w ≡ ok (out, w')
    → Transition env user id target w.db w'.db
unfolding Router.update_status moved_db get_incident
update_status_moves env call user id target note w w' out h =
    let (writer, allowed, rest) = bind-ok (require_role Router.writers user) h in
    let (incident, found, rest') =
      bind-ok (or_raise (get_incident id w.db) Router.not_found) rest in
    let (made, moves, done) =
      bind-ok
        (on_value_error (transition_status env call incident target writer.sub note w.db)
          (Error.http 409))
        rest' in
    let it : w'.db ≡ made.1 = ground arith in
    let (writes, role) = require_role-ok Router.writers user writer allowed in
    let moving = on_value_error-ok _ _ moves in
    let t = transition_status-Transitioned env call incident target writer.sub note w.db moving in
    let tables : w'.db ≡ moved_db env call incident target writer.sub note w.db = it ∙ t.tables in
    let found' = or_raise-ok _ _ found in
    record {
      allowed = role;
      incident = incident;
      found = found';
      legal = t.legal;
      incident' = moved incident target call.now;
      same_id = id-moved incident target call.now;
      reference = reference-moved incident target call.now;
      source_ref = source_ref-moved incident target call.now;
      assignee = assignee-moved incident target call.now;
      status = status-moved incident target call.now;
      incidents = ap (λ (d : Db). d.incidents) tables;
      row = status_row incident target writer.sub note;
      about = refl;
      actor = ap (λ (u : TokenPayload). u.sub) writes;
      from_status = refl;
      to_status = refl;
      timeline = ap (λ (d : Db). d.timeline) tables;
      notifications = ap (λ (d : Db). d.notifications) tables;
      change = rw it (
          transitioned call incident made.0 target writer.sub note (refetch id w.db incident found')
            moving);
    }

-- The incident of an identifier is given an assignee and nothing else, with one row in the timeline that has no
-- status.
pub record Assignment (env : Env) (user : TokenPayload) (id assignee : String) (db db' : Db)
    : Type 0 where
  pub allowed : one_of user.role ("risk_officer" ∷ "ciso" ∷ "admin" ∷ []) ≡ true
  pub incident : Incident
  pub found : find_first (λ (i : Incident). i.id == id) db.incidents ≡ some incident
  pub incidents :
      db'.incidents
      ≡ update_where
          (λ (i : Incident). i.id == incident.id)
          (λ _. record incident { assignee = some assignee })
          db.incidents
  pub row : IncidentTimeline
  pub about : row.incident_id ≡ incident.id
  pub actor : row.actor ≡ user.sub
  pub to_status : row.to_status ≡ none
  pub timeline : db'.timeline ≡ db.timeline ++ row ∷ []
  pub notifications : db'.notifications ≡ db.notifications
  pub change : Change env db db'

-- A successful request to assign an incident was a writer's, and makes one change of the tables:
-- the incident that was asked for is given the assignee and keeps its status, and the other
-- incidents and the notifications are as before.
pub assign_incident_assigns :
    (env : Env) (call : Call) (user : TokenPayload) (id assignee note : String) (w w' : World)
    (out : Option IncidentDetailOut)
    → Router.assign_incident env call user id assignee note w ≡ ok (out, w')
    → Assignment env user id assignee w.db w'.db
unfolding Router.assign_incident assign_incident get_incident
assign_incident_assigns env call user id assignee note w w' out h =
    let (writer, allowed, rest) = bind-ok (require_role Router.writers user) h in
    let (incident, found, done) = bind-ok (or_raise (get_incident id w.db) Router.not_found) rest in
    let (writes, role) = require_role-ok Router.writers user writer allowed in
    let tables : w'.db ≡ (assign_incident env call incident assignee writer.sub note w.db).1 =
      ap (λ (p : Option IncidentDetailOut × World). (p.1).db) (sym (ok-injective done)) in
    let found' = or_raise-ok _ _ found in
    record {
      allowed = role;
      incident = incident;
      found = found';
      incidents = ap (λ (d : Db). d.incidents) tables;
      row = assignment_row incident assignee writer.sub note;
      about = refl;
      actor = ap (λ (u : TokenPayload). u.sub) writes;
      to_status = refl;
      timeline = ap (λ (d : Db). d.timeline) tables;
      notifications = ap (λ (d : Db). d.notifications) tables;
      change =
          assigned call incident assignee writer.sub note (refetch id w.db incident found') tables;
    }
