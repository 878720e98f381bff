-- ===== src/Incident/Tests.antt =====
-- Concrete runs of incident-service.
use sc_tpcrs.Prelude.{
  ◌⊎◌, ◌≤◌, ◌==◌, one_of, arith, ℕ, String, ◌≡◌, refl, Bool, true, false, Option, none, some, List,
  [], ◌∷◌, Result, ok, err, Error,
}
use sc_tpcrs.Prelude.Value.{Dict, str, null}
use sc_tpcrs.Jwt.{TokenPayload}
use sc_tpcrs.Kafka.{Event, Bus}
use sc_tpcrs.Audit.{Hashing, verify_chain}
use sc_tpcrs.Incident.Lifecycle.{
  category_for_alert_type, default_settings, statuses, severity_rank, sla_due_at, can_transition,
}
use sc_tpcrs.Incident.Lifecycle.Laws.{AreOrdered, can_transition_sound, sla_due_at_antitone}
use sc_tpcrs.Incident.Models.{Incident, Db, World}
use sc_tpcrs.Incident.Service.{Env, Call, NewIncident, create_incident, get_incident}
use sc_tpcrs.Incident.Effects.{IsFresh}
use sc_tpcrs.Incident.Change.{Reach}
use sc_tpcrs.Incident.Keys.{HasKeys, Reach-HasKeys}
use sc_tpcrs.Incident.Rows.{AreSound, Reach-AreSound}
use sc_tpcrs.Incident.Drafted.{drafts_for, drafts_due, create_incident-drafts_due}
use sc_tpcrs.Incident.Drafts.{maybe_draft_notifications_idempotent}
use sc_tpcrs.Incident.Events.{handle_event}
use sc_tpcrs.Incident.Events.Once.{handle_event_idempotent}
use sc_tpcrs.Incident.Router
use sc_tpcrs.Incident.Events
use sc_tpcrs.Incident.Service
use sc_tpcrs.Incident.Router.{IncidentCreate, IncidentDetailOut, Response}
use sc_tpcrs.Incident.Operations.{Reach-verify_chain, handle_event-Reach, run_consumer-verify_chain}
use sc_tpcrs.Incident.Openings.{Opening, create_incident_opens, handle_event_opens}
use sc_tpcrs.Incident.Requests.{
  Transition, Assignment, update_status_moves, assign_incident_assigns,
}
use sc_tpcrs.Incident.Events.Once

abbrev hashing : Hashing
hashing = record { sha256_hex = λ s. s; json_dumps = λ e. e.action }

abbrev env : Env
env = record {
  hashing = hashing;
  parse_uuid = λ s. some s;
  strftime = λ t. "2026-01-01 00:00 UTC";
  settings = default_settings;
}

abbrev first_call : Call
first_call = record { now = 1000; now_text = "t0"; new_id = "i1" }

abbrev later_call : Call
later_call = record { now = 2000; now_text = "t1"; new_id = "i2" }

abbrev empty : World
empty = record {
  db = record { incidents = []; timeline = []; notifications = []; audit_log = [] };
  bus = record { connected = false; start_ok = true; send_ok = true; now = "t0"; sent = [] };
}

abbrev alert : Event
alert = record {
  event_type = some "monitoring.alert.raised";
  emitted_at = none;
  payload =
      some (("alert_id", str "a1") ∷ ("vendor_id", str "v1") ∷ ("severity", str "Critical") ∷ []);
}

abbrev world_of : Result World → World
world_of (ok w) = w
world_of (err e) = empty

abbrev answer_of : Response → Option IncidentDetailOut × World
answer_of (ok r) = r
answer_of (err e) = (none, empty)

abbrev with_alert : World
with_alert = world_of (handle_event env (first_call, alert) empty)

handle_event_idempotent_example : handle_event env (later_call, alert) with_alert ≡ ok with_alert
unfolding handle_event Events.handle_monitoring_alert sc_tpcrs.Prelude.Value.truthy
    sc_tpcrs.Prelude.Value.get_or sc_tpcrs.Prelude.Value.lookup
    sc_tpcrs.Incident.Lifecycle.meets_auto_open_threshold sc_tpcrs.Prelude.Value.to_text
    Service.find_by_source_ref Events.auto_open create_incident
handle_event_idempotent_example =
    handle_event_idempotent env first_call later_call alert empty with_alert refl

abbrev officer : TokenPayload
officer = record { sub = "ada"; role = "ciso"; mfa_verified = true; exp = 9000; iat = 0 }

abbrev moved_world : World
moved_world =
    (answer_of (Router.update_status env later_call officer "i1" "contained" "" with_alert)).1

abbrev moved_answer : Option IncidentDetailOut
moved_answer =
    (answer_of (Router.update_status env later_call officer "i1" "contained" "" with_alert)).0

nothing_there : IsFresh "i1" empty.db
nothing_there = record { incidents = tt; notifications = tt }

opened_by_alert : Reach env empty.db with_alert.db
unfolding handle_event Events.handle_monitoring_alert sc_tpcrs.Prelude.Value.truthy
    sc_tpcrs.Prelude.Value.get_or sc_tpcrs.Prelude.Value.lookup
    sc_tpcrs.Incident.Lifecycle.meets_auto_open_threshold sc_tpcrs.Prelude.Value.to_text
    Service.find_by_source_ref Events.auto_open create_incident
opened_by_alert = handle_event-Reach env first_call alert empty with_alert nothing_there refl

update_status_moves_example : Transition env officer "i1" "contained" with_alert.db moved_world.db
unfolding Router.update_status sc_tpcrs.Jwt.require_role get_incident handle_event
    Events.handle_monitoring_alert sc_tpcrs.Prelude.Value.truthy sc_tpcrs.Prelude.Value.get_or
    sc_tpcrs.Prelude.Value.lookup sc_tpcrs.Incident.Lifecycle.meets_auto_open_threshold
    sc_tpcrs.Prelude.Value.to_text Service.find_by_source_ref Events.auto_open create_incident
    Service.open_with Service.maybe_draft_notifications Service.new_incident
    sc_tpcrs.Incident.Lifecycle.category_implies_data_breach sc_tpcrs.Audit.build_audit_entry
    sc_tpcrs.Audit.canonical_json sc_tpcrs.Audit.compute_entry_hash sc_tpcrs.Audit.prev_hash_of
    sc_tpcrs.Audit.record_audit_event Events.publish_incident_event
    sc_tpcrs.Incident.Lifecycle.can_transition sc_tpcrs.Incident.Lifecycle.category_for_alert_type
    sc_tpcrs.Incident.Lifecycle.is_sla_breached sc_tpcrs.Incident.Lifecycle.severity_rank
    sc_tpcrs.Incident.Lifecycle.sla_due_at sc_tpcrs.Incident.Lifecycle.sla_window_hours
    sc_tpcrs.Incident.Lifecycle.transitions sc_tpcrs.Incident.Notifications.build_cbn_notification
    sc_tpcrs.Incident.Notifications.build_ndpc_notification
    sc_tpcrs.Incident.Notifications.cbn_deadline sc_tpcrs.Incident.Notifications.fmt
    sc_tpcrs.Incident.Notifications.ndpa_deadline Router.detail Router.to_incident_out
    Service.add_notification Service.add_timeline Service.audit Service.draft_cbn Service.draft_ndpc
    Service.existing_regulators Service.get_notifications Service.get_timeline Service.moved
    Service.moved_db Service.next_reference Service.reference_of Service.save
    Service.stamp_status_timestamps Service.transition_status sc_tpcrs.Kafka.envelope
    sc_tpcrs.Kafka.get_producer sc_tpcrs.Kafka.publish sc_tpcrs.Prelude.decimal
    sc_tpcrs.Prelude.zero_padded
update_status_moves_example =
    update_status_moves env later_call officer "i1" "contained" "" with_alert moved_world
      moved_answer refl

handle_event_opens_example :
    ((with_alert ≡ empty)
      × ¬ (Once.IsActionable env alert × (Service.find_by_source_ref "a1" empty.db ≡ none)))
    ⊎ (Once.IsActionable env alert
        × (Service.find_by_source_ref "a1" empty.db ≡ none)
        × Opening env first_call
            (Once.field_of alert "vendor_id" null)
            (Once.field_of alert "severity" (str "Medium"))
            (category_for_alert_type (Once.field_of alert "alert_type" (str "")))
            (some "a1")
            empty.db
            with_alert.db)
unfolding handle_event Events.handle_monitoring_alert sc_tpcrs.Prelude.Value.truthy
    sc_tpcrs.Prelude.Value.get_or sc_tpcrs.Prelude.Value.lookup
    sc_tpcrs.Incident.Lifecycle.meets_auto_open_threshold sc_tpcrs.Prelude.Value.to_text
    Service.find_by_source_ref Events.auto_open create_incident
handle_event_opens_example =
    handle_event_opens env first_call alert empty with_alert nothing_there refl

empty-HasKeys : HasKeys empty.db
empty-HasKeys = record { distinct_ids = tt; in_sequence = refl; one_per_source = tt }

Reach-HasKeys_example : HasKeys with_alert.db
Reach-HasKeys_example = Reach-HasKeys env empty.db with_alert.db opened_by_alert empty-HasKeys

Reach-AreSound_example : AreSound with_alert.db
Reach-AreSound_example = Reach-AreSound env empty.db with_alert.db opened_by_alert tt

Reach-verify_chain_example :
    verify_chain hashing with_alert.db.audit_log ≡ verify_chain hashing empty.db.audit_log
Reach-verify_chain_example = Reach-verify_chain env empty.db with_alert.db opened_by_alert

run_consumer-verify_chain_example :
    verify_chain hashing
      (Events.run_consumer env ((first_call, alert) ∷ (later_call, alert) ∷ []) empty).db.audit_log
    ≡ true
unfolding verify_chain
run_consumer-verify_chain_example =
    run_consumer-verify_chain env ((first_call, alert) ∷ (later_call, alert) ∷ []) empty refl

abbrev breach : IncidentCreate
breach = record {
  vendor_id = "v1";
  title = "leak";
  description = "";
  severity = "High";
  category = "DATA_BREACH";
  personal_data_involved = false;
}

abbrev created_answer : Option IncidentDetailOut × World
created_answer = answer_of (Router.create_incident env first_call officer breach empty)

create_incident_opens_example :
    Opening env first_call breach.vendor_id breach.severity breach.category none empty.db
      created_answer.1.db
unfolding Router.create_incident sc_tpcrs.Jwt.require_role create_incident
create_incident_opens_example =
    create_incident_opens env first_call officer breach empty created_answer.1 created_answer.0
      nothing_there refl

abbrev assigned_answer : Option IncidentDetailOut × World
assigned_answer = answer_of (Router.assign_incident env later_call officer "i1" "obi" "" with_alert)

assign_incident_assigns_example :
    Assignment env officer "i1" "obi" with_alert.db assigned_answer.1.db
unfolding Router.assign_incident sc_tpcrs.Jwt.require_role get_incident handle_event
    Events.handle_monitoring_alert sc_tpcrs.Prelude.Value.truthy sc_tpcrs.Prelude.Value.get_or
    sc_tpcrs.Prelude.Value.lookup sc_tpcrs.Incident.Lifecycle.meets_auto_open_threshold
    sc_tpcrs.Prelude.Value.to_text Service.find_by_source_ref Events.auto_open create_incident
    Service.open_with Service.maybe_draft_notifications Service.new_incident
    sc_tpcrs.Incident.Lifecycle.category_implies_data_breach sc_tpcrs.Audit.build_audit_entry
    sc_tpcrs.Audit.canonical_json sc_tpcrs.Audit.compute_entry_hash sc_tpcrs.Audit.prev_hash_of
    sc_tpcrs.Audit.record_audit_event Events.publish_incident_event
    sc_tpcrs.Incident.Lifecycle.category_for_alert_type sc_tpcrs.Incident.Lifecycle.is_sla_breached
    sc_tpcrs.Incident.Lifecycle.severity_rank sc_tpcrs.Incident.Lifecycle.sla_due_at
    sc_tpcrs.Incident.Lifecycle.sla_window_hours
    sc_tpcrs.Incident.Notifications.build_cbn_notification
    sc_tpcrs.Incident.Notifications.build_ndpc_notification
    sc_tpcrs.Incident.Notifications.cbn_deadline sc_tpcrs.Incident.Notifications.fmt
    sc_tpcrs.Incident.Notifications.ndpa_deadline Router.detail Router.to_incident_out
    Service.add_notification Service.add_timeline Service.assign_incident Service.audit
    Service.draft_cbn Service.draft_ndpc Service.existing_regulators Service.get_notifications
    Service.get_timeline Service.next_reference Service.reference_of Service.save
    sc_tpcrs.Kafka.envelope sc_tpcrs.Kafka.get_producer sc_tpcrs.Kafka.publish
    sc_tpcrs.Prelude.decimal sc_tpcrs.Prelude.zero_padded
assign_incident_assigns_example =
    assign_incident_assigns env later_call officer "i1" "obi" "" with_alert assigned_answer.1
      assigned_answer.0 refl

abbrev opened_row : Incident × Db
opened_row = elim (create_incident env first_call "ada" (Router.manual breach) empty.db) [
  | ok r ↦ r
  | err e ↦ (Service.new_incident env first_call (Router.manual breach) "v1" empty.db, empty.db)
]

create_incident-drafts_due_example :
    drafts_for "i1" opened_row.1 ≡ drafts_due default_settings 1000 "High" "DATA_BREACH" false
unfolding create_incident
create_incident-drafts_due_example =
    create_incident-drafts_due env first_call "ada" (Router.manual breach) empty.db
      {incident = opened_row.0} {db' = opened_row.1} nothing_there refl

maybe_draft_notifications_idempotent_example :
    Service.maybe_draft_notifications env opened_row.0 "eve"
      (Service.maybe_draft_notifications env opened_row.0 "ada" empty.db)
    ≡ Service.maybe_draft_notifications env opened_row.0 "ada" empty.db
maybe_draft_notifications_idempotent_example =
    maybe_draft_notifications_idempotent env opened_row.0 "ada" "eve" empty.db

can_transition_sound_example :
    (one_of "resolved" statuses ≡ true)
    × (one_of "investigating" statuses ≡ true)
    × (("resolved" == "closed") ≡ false)
    × (("investigating" == "open") ≡ false)
    × (("resolved" == "investigating") ≡ false)
unfolding can_transition
can_transition_sound_example = can_transition_sound "resolved" "investigating" refl

default_settings-AreOrdered : AreOrdered default_settings
default_settings-AreOrdered = record {
  critical_high = omega arith;
  high_medium = omega arith;
  medium_low = omega arith;
}

sla_due_at_antitone_example :
    sla_due_at default_settings 1000 "Critical" ≤ sla_due_at default_settings 1000 "Medium"
unfolding severity_rank
sla_due_at_antitone_example =
    sla_due_at_antitone default_settings 1000 "Medium" "Critical" default_settings-AreOrdered refl
      refl ranks
  where
    ranks : severity_rank "Medium" ≤ severity_rank "Critical"
    ranks = omega arith
