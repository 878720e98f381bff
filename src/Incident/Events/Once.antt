-- ===== src/Incident/Events/Once.antt =====
-- services/incident-service/app/services/events.py: what handling an event, once or again, may do.
use sc_tpcrs.Prelude.{
  String, ◌≡◌, ◌||◌, not, ◌≢◌, refl, inl, inr, true, false, none, [], arith, find_first-append,
  eq_refl, Bool-cases, Option-cases, bind-ok, ok, starts_with, or_else,
}
use sc_tpcrs.Prelude.Value.{Value, Dict, null, str, get_or, truthy, to_text}
use sc_tpcrs.Kafka.{Event}
use sc_tpcrs.Incident.Lifecycle.{meets_auto_open_threshold}
use sc_tpcrs.Incident.Models.{Incident, World}
use sc_tpcrs.Incident.Service.{
  Env, Call, create_incident, new_incident, find_by_source_ref, is_from,
}
use sc_tpcrs.Incident.Effects.{open_with-Opened, create_incident-Created}
use sc_tpcrs.Incident.Events.{
  from_alert, publish_incident_event, auto_open, handle_monitoring_alert, handle_event,
}

abbrev pub alert_of : Dict → String
alert_of payload = to_text (get_or payload "alert_id" null)

-- What opening an incident from an alert has done.
pub record AutoOpened (env : Env) (call : Call) (payload : Dict) (severity : String) (w w' : World)
    : Type 0 where
  pub incident : Incident
  pub created :
      create_incident env call "system:incident-events" (from_alert payload severity) w.db
      ≡ ok (incident, w'.db)
  pub bus : w'.bus ≡ (publish_incident_event incident "incident.opened" w.bus).1

pub auto_open-AutoOpened :
    (env : Env) (call : Call) (payload : Dict) (severity : String) (w w' : World)
    → auto_open env call payload severity w ≡ ok w'
    → AutoOpened env call payload severity w w'
unfolding auto_open
auto_open-AutoOpened env call payload severity w w' h =
    let (r, made, done) =
      bind-ok (create_incident env call "system:incident-events" (from_alert payload severity) w.db)
        h in
    record { incident = r.0; created = ground arith; bus = ground arith }

-- An incident opened from an alert is found by the alert's identifier.
auto_open-find_by_source_ref :
    (env : Env) (call : Call) (payload : Dict) (severity : String) (w w' : World)
    → auto_open env call payload severity w ≡ ok w'
    → find_by_source_ref (alert_of payload) w'.db ≢ none
unfolding find_by_source_ref new_incident
auto_open-find_by_source_ref env call payload severity w w' h =
    let opened = auto_open-AutoOpened env call payload severity w w' h in
    let c =
      create_incident-Created env call "system:incident-events" (from_alert payload severity) w.db
        opened.created in
    let o =
      open_with-Opened env call (from_alert payload severity) "system:incident-events"
        opened.incident w.db in
    rw (c.tables, o.incidents)
      (find_first-append (λ (i : Incident). is_from (alert_of payload) i.source_ref) w.db.incidents
        opened.incident (rw c.row (eq_refl (alert_of payload))))

abbrev pub payload_of : Event → Dict
payload_of event = or_else event.payload []

abbrev pub severity_of : Event → String
severity_of event = to_text (get_or (payload_of event) "severity" (str "Medium"))

-- A field of the alert as a text.
abbrev pub field_of : Event → String → Value → String
field_of event name default = to_text (get_or (payload_of event) name default)

-- The event is an alert that an incident should be open for.
pub record IsActionable (env : Env) (event : Event) : Type 0 where
  pub alert : starts_with (or_else event.event_type "") "monitoring.alert" ≡ true
  pub complete :
      (not (truthy (get_or (payload_of event) "vendor_id" null))
        || not (truthy (get_or (payload_of event) "alert_id" null)))
      ≡ false
  pub severe : not (meets_auto_open_threshold env.settings (severity_of event)) ≡ false

-- Handling an event leaves everything, or opens an incident for a new alert.
pub data Handled (env : Env) (call : Call) (event : Event) (w w' : World) : Type 0 where
  ignored :
      ((any : Call) → handle_event env (any, event) w ≡ ok w) → w' ≡ w → Handled env call event w w'
  opened :
      IsActionable env event
      → find_by_source_ref (alert_of (payload_of event)) w.db ≡ none
      → auto_open env call (payload_of event) (severity_of event) w ≡ ok w'
      → Handled env call event w w'

pub handle_event-Handled :
    (env : Env) (call : Call) (event : Event) (w w' : World)
    → handle_event env (call, event) w ≡ ok w'
    → Handled env call event w w'
unfolding handle_event handle_monitoring_alert
handle_event-Handled env call event w w' h =
    elim (Bool-cases (starts_with (or_else event.event_type "") "monitoring.alert")) [
      | inr other ↦ ignored (λ any. rw other refl) (same (rw other at h))
      | inl alert ↦
          elim (Bool-cases (
            not (truthy (get_or payload "vendor_id" null))
            || not (truthy (get_or payload "alert_id" null)))) [
              | inl partial ↦
                  ignored (λ any. rw (alert, partial) refl) (same (rw (alert, partial) at h))
              | inr complete ↦
                  elim (Bool-cases
                    (not (meets_auto_open_threshold env.settings (severity_of event)))) [
                      | inl low ↦
                          ignored (λ any. rw (alert, complete, low) refl)
                            (same (rw (alert, complete, low) at h))
                      | inr severe ↦
                          elim (Option-cases (find_by_source_ref (alert_of payload) w.db)) [
                            | inr (existing, found) ↦
                                ignored (λ any. rw (alert, complete, severe, found) refl)
                                  (same (rw (alert, complete, severe, found) at h))
                            | inl missing ↦
                                opened
                                  (record { alert = alert; complete = complete; severe = severe })
                                  missing (rw (alert, complete, severe, missing) at h)
                          ]
                    ]
            ]
    ]
  where
    payload : Dict
    payload = payload_of event

    same : ok w ≡ ok w' → w' ≡ w
    same e = cc

-- An alert that an incident is open for is ignored.
handle_event-found :
    (env : Env) (call : Call) (event : Event) (w : World)
    → IsActionable env event
    → find_by_source_ref (alert_of (payload_of event)) w.db ≢ none
    → handle_event env (call, event) w ≡ ok w
unfolding handle_event handle_monitoring_alert
handle_event-found env call event w a known =
    elim (Option-cases (find_by_source_ref (alert_of (payload_of event)) w.db)) [
      | inl missing ↦ elim (known missing) [ ]
      | inr (existing, found) ↦ rw (a.alert, a.complete, a.severe, found) refl
    ]

-- Handling an alert that no incident is open for does not leave the tables as they were.
pub handle_event-changes :
    (env : Env) (call : Call) (event : Event) (w : World)
    → IsActionable env event
    → find_by_source_ref (alert_of (payload_of event)) w.db ≡ none
    → handle_event env (call, event) w ≢ ok w
unfolding handle_event handle_monitoring_alert
handle_event-changes env call event w a missing h =
    auto_open-find_by_source_ref env call (payload_of event) (severity_of event) w w
      (rw (a.alert, a.complete, a.severe, missing) at h) missing

-- If handling an event succeeds, handling the same event again in the state after it, at whatever
-- time, succeeds and changes nothing.
pub handle_event_idempotent :
    (env : Env) (first again : Call) (event : Event) (w w' : World)
    → handle_event env (first, event) w ≡ ok w'
    → handle_event env (again, event) w' ≡ ok w'
handle_event_idempotent env first again event w w' h =
    elim (handle_event-Handled env first event w w' h) [
      | ignored always same ↦ rw same (always again)
      | opened a missing e ↦
          handle_event-found env again event w' a
            (auto_open-find_by_source_ref env first (payload_of event) (severity_of event) w w' e)
    ]
