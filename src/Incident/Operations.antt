-- ===== src/Incident/Operations.antt =====
-- The handlers of routers/incidents.py and the consumer of services/events.py, as changes of the tables.
use sc_tpcrs.Prelude.{
  String, ◌≡◌, refl, sym, ◌∙◌, true, Option, some, List, ◌==◌, arith, bind-ok, str_eq_of,
  find_first-passes, find_first, ok, or_raise, subst,
}
use sc_tpcrs.Jwt.{TokenPayload, require_role}
use sc_tpcrs.Kafka.{Event}
use sc_tpcrs.Kafka.{consume-IsInvariant}
use sc_tpcrs.Audit.{verify_chain}
use sc_tpcrs.Incident.Models.{Incident, Db, World}
use sc_tpcrs.Incident.Service.{Env, Call, get_incident}
use sc_tpcrs.Incident.Effects.{
  IsFresh, open_with-Opened, create_incident-Created, transition_status-Transitioned,
  moved_db-Saved, assign_incident-Saved, add_note-Saved,
}
use sc_tpcrs.Incident.Change.{Change, opened, transitioned, assigned, noted, Reach, here, next}
use sc_tpcrs.Incident.Router
use sc_tpcrs.Incident.Router.{IncidentCreate, IncidentDetailOut}
use sc_tpcrs.Incident.Events.{handle_event, run_consumer}
use sc_tpcrs.Incident.Events.Once

-- A change appends one row to the audit log, which verifies as before.
pub Change-verify_chain :
    (env : Env) (db db' : Db)
    → Change env db db'
    → verify_chain env.hashing db'.audit_log ≡ verify_chain env.hashing db.audit_log
Change-verify_chain env db db' (opened call args actor incident fresh free e) =
    let c = create_incident-Created env call actor args db e in
    rw c.tables (open_with-Opened env call args actor incident db).chain
Change-verify_chain env db db' (transitioned call incident incident' target actor note found e) =
    let t = transition_status-Transitioned env call incident target actor note db e in
    rw t.tables (moved_db-Saved env call incident target actor note db).chain
Change-verify_chain env db db' (assigned call incident assignee actor note found e) =
    rw e (assign_incident-Saved env call incident assignee actor note db).chain
Change-verify_chain env db db' (noted call incident message actor e) =
    rw e (add_note-Saved env call incident message actor db).2

-- Whatever changes are made to the tables, the audit log verifies after them if and only if it did
-- before.
pub Reach-verify_chain :
    (env : Env) (db db' : Db)
    → Reach env db db'
    → verify_chain env.hashing db'.audit_log ≡ verify_chain env.hashing db.audit_log
Reach-verify_chain env db db' here = refl
Reach-verify_chain env db db' (next {db' = d} r c) =
    Change-verify_chain env d db' c ∙ Reach-verify_chain env db d r

-- An incident that is found has the identifier it was looked for by.
pub refetch :
    (id : String) (db : Db) (incident : Incident)
    → get_incident id db ≡ some incident
    → get_incident incident.id db ≡ some incident
unfolding get_incident
refetch id db incident found =
    subst (λ k. find_first (λ (i : Incident). i.id == k) db.incidents ≡ some incident)
      (sym (
        str_eq_of incident.id id
          (find_first-passes (λ (i : Incident). i.id == id) db.incidents incident found)))
      found

-- An event leads from the tables to tables that changes lead to.
pub handle_event-Reach :
    (env : Env) (call : Call) (event : Event) (w w' : World)
    → IsFresh call.new_id w.db
    → handle_event env (call, event) w ≡ ok w'
    → Reach env w.db w'.db
handle_event-Reach env call event w w' fresh h =
    elim (Once.handle_event-Handled env call event w w' h) [
      | Once.Handled.ignored always same ↦ rw same here
      | Once.Handled.opened a missing e ↦
          let o =
            Once.auto_open-AutoOpened env call (Once.payload_of event) (Once.severity_of event) w w'
              e in
          next here (opened call _ _ o.incident fresh missing o.created)
    ]

-- So does a note.
pub add_note-Reach :
    (env : Env) (call : Call) (user : TokenPayload) (id message : String) (w w' : World)
    (out : Option IncidentDetailOut)
    → Router.add_note env call user id message w ≡ ok (out, w')
    → Reach env w.db w'.db
unfolding Router.add_note
add_note-Reach env call user id message w w' out h =
    let (writer, allowed, rest) = bind-ok (require_role Router.writers user) h in
    let (incident, found, done) = bind-ok (or_raise (get_incident id w.db) Router.not_found) rest in
    next here (noted call incident message writer.sub (ground arith))

-- The consumer keeps a verified audit log verified, whatever the messages are.
pub run_consumer-verify_chain :
    (env : Env) (messages : List (Call × Event)) (w : World)
    → verify_chain env.hashing w.db.audit_log ≡ true
    → verify_chain env.hashing (run_consumer env messages w).db.audit_log ≡ true
unfolding run_consumer
run_consumer-verify_chain env messages w h =
    consume-IsInvariant (handle_event env)
      (λ (v : World). verify_chain env.hashing v.db.audit_log ≡ true)
      (λ m v v' p e. handled m v v' (Once.handle_event-Handled env m.0 m.1 v v' e) ∙ p) messages w h
  where
    handled :
        (m : Call × Event) (v v' : World)
        → Once.Handled env m.0 m.1 v v'
        → verify_chain env.hashing v'.db.audit_log ≡ verify_chain env.hashing v.db.audit_log
    handled m v v' (Once.Handled.ignored always same) = rw same refl
    handled m v v' (Once.Handled.opened a missing e) =
        let o =
          Once.auto_open-AutoOpened env m.0 (Once.payload_of m.1) (Once.severity_of m.1) v v' e in
        let c = create_incident-Created env m.0 _ _ v.db o.created in
        rw c.tables (open_with-Opened env m.0 _ _ o.incident v.db).chain
