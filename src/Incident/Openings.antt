-- ===== src/Incident/Openings.antt =====
-- What a request that opens an incident, or an event, does to the tables: one opening, or nothing.
use sc_tpcrs.Prelude.{
  String, ◌≡◌, sym, ◌∙◌, ap, ◌⊎◌, inl, inr, Option, none, some, [], ◌∷◌, ◌++◌, ◌==◌, arith, bind-ok,
  ok, if◌then◌else◌,
}
use sc_tpcrs.Jwt.{TokenPayload, require_role}
use sc_tpcrs.Kafka.{Event}
use sc_tpcrs.Prelude.Value.{null, str}
use sc_tpcrs.Incident.Lifecycle.{category_for_alert_type}
use sc_tpcrs.Incident.Models.{Incident, Db, World}
use sc_tpcrs.Incident.Service.{
  Env, Call, NewIncident, new_incident, create_incident, find_by_source_ref,
}
use sc_tpcrs.Incident.Effects.{IsFresh, status_of, open_with-Opened, create_incident-Created}
use sc_tpcrs.Incident.Change.{Change, opened, IsUnclaimed}
use sc_tpcrs.Incident.Router
use sc_tpcrs.Incident.Router.{IncidentCreate, IncidentDetailOut}
use sc_tpcrs.Incident.Events.{handle_event}
use sc_tpcrs.Incident.Events.Once

-- One incident is opened, for the arguments, and nothing happens to the others.
pub record Opening (env : Env) (call : Call) (of_vendor of_severity of_category : String)
    (of_source : Option String) (db db' : Db) : Type 0 where
  pub incident : Incident
  pub id : incident.id ≡ call.new_id
  pub vendor : env.parse_uuid of_vendor ≡ some incident.vendor_id
  pub status : incident.status ≡ "open"
  pub severity : incident.severity ≡ of_severity
  pub category : incident.category ≡ of_category
  pub source_ref : incident.source_ref ≡ of_source
  pub opened_at : incident.opened_at ≡ call.now
  pub incidents : db'.incidents ≡ db.incidents ++ incident ∷ []
  pub statuses :
      (k : String)
      → status_of k db'.timeline
        ≡ (if incident.id == k then some "open" else status_of k db.timeline)
  pub change : Change env db db'

create_incident-Opening :
    (env : Env) (call : Call) (actor : String) (args : NewIncident) (db db' : Db)
    (incident : Incident)
    → IsFresh call.new_id db
    → IsUnclaimed args.source_ref db
    → create_incident env call actor args db ≡ ok (incident, db')
    → Opening env call args.vendor_id args.severity args.category args.source_ref db db'
unfolding new_incident
create_incident-Opening env call actor args db db' incident fresh free h =
    let c = create_incident-Created env call actor args db h in
    let o = open_with-Opened env call args actor incident db in
    record {
      incident = incident;
      id = ap (λ (i : Incident). i.id) c.row;
      vendor = c.parsed ∙ ap (λ (i : Incident). some i.vendor_id) (sym c.row);
      status = ap (λ (i : Incident). i.status) c.row;
      severity = ap (λ (i : Incident). i.severity) c.row;
      category = ap (λ (i : Incident). i.category) c.row;
      source_ref = ap (λ (i : Incident). i.source_ref) c.row;
      opened_at = ap (λ (i : Incident). i.opened_at) c.row;
      incidents = rw c.tables o.incidents;
      statuses = λ k. rw c.tables (o.statuses k);
      change = opened call args actor incident fresh free h;
    }

-- A successful request to open an incident makes one change of the tables, if the identifier is
-- new: the opening of one incident under it, with the vendor, severity and category that were asked
-- for, which is open in the timeline.
pub create_incident_opens :
    (env : Env) (call : Call) (user : TokenPayload) (body : IncidentCreate) (w w' : World)
    (out : Option IncidentDetailOut)
    → IsFresh call.new_id w.db
    → Router.create_incident env call user body w ≡ ok (out, w')
    → Opening env call body.vendor_id body.severity body.category none w.db w'.db
unfolding Router.create_incident
create_incident_opens env call user body w w' out fresh h =
    let (writer, allowed, rest) = bind-ok (require_role Router.writers user) h in
    let (made, created, done) =
      bind-ok (create_incident env call writer.sub (Router.manual body) w.db) rest in
    let it : w'.db ≡ made.1 = ground arith in
    rw it (
      create_incident-Opening env call writer.sub (Router.manual body) w.db made.1 made.0 fresh tt
        created)

-- A successful handling of an event makes one change of the tables where the event is an alert with
-- a vendor and an identifier, is severe enough, and no incident has its identifier: one incident is
-- opened under the new identifier for the alert's vendor, with its severity, the category of its
-- type and its identifier as the source reference. Otherwise it leaves the state as it was. The
-- identifier that an opening would use is new.
pub handle_event_opens :
    (env : Env) (call : Call) (event : Event) (w w' : World)
    → IsFresh call.new_id w.db
    → handle_event env (call, event) w ≡ ok w'
    → ((w' ≡ w)
        × ¬ (
            Once.IsActionable env event
            × (find_by_source_ref (Once.field_of event "alert_id" null) w.db ≡ none)))
      ⊎ (Once.IsActionable env event
          × (find_by_source_ref (Once.field_of event "alert_id" null) w.db ≡ none)
          × Opening env call
              (Once.field_of event "vendor_id" null)
              (Once.field_of event "severity" (str "Medium"))
              (category_for_alert_type (Once.field_of event "alert_type" (str "")))
              (some (Once.field_of event "alert_id" null))
              w.db
              w'.db)
handle_event_opens env call event w w' fresh h =
    elim (Once.handle_event-Handled env call event w w' h) [
      | Once.Handled.ignored always same ↦
          inl (
            same,
            λ (a, missing). Once.handle_event-changes env call event w a missing (always call),
          )
      | Once.Handled.opened a missing e ↦
          let o =
            Once.auto_open-AutoOpened env call (Once.payload_of event) (Once.severity_of event) w w'
              e in
          inr (
            a,
            missing,
            create_incident-Opening env call _ _ w.db w'.db o.incident fresh missing o.created,
          )
    ]
