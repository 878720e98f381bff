-- ===== src/Incident/Service/Drafting.antt =====
-- `_maybe_draft_notifications` of services/incident-service/app/services/incident_service.py.
use sc_tpcrs.Prelude.{
  String, not, ◌&&◌, none, List, [], ◌∷◌, map, ◌==◌, select, one_of, fstring, if◌then◌else◌,
}
use sc_tpcrs.Incident.Models.{Incident, IncidentTimeline, IncidentNotification, Db}
use sc_tpcrs.Incident.Notifications.{
  cbn_deadline, ndpa_deadline, build_cbn_notification, build_ndpc_notification,
}
use sc_tpcrs.Incident.Service.Writes.{Env, add_timeline, add_notification}

-- The regulators that have a notification of the incident.
unfoldable pub existing_regulators : String → Db → List String
existing_regulators incident_id db =
    map (λ (n : IncidentNotification). n.regulator)
      (select (λ (n : IncidentNotification). n.incident_id == incident_id) db.notifications)

abbrev pub cbn_row : Incident → String → IncidentTimeline
cbn_row incident actor = record {
  incident_id = incident.id;
  event_type = "notification";
  actor = actor;
  message = "CBN cyber-incident notification drafted (24h deadline).";
  from_status = none;
  to_status = none;
}

-- The body of `if incident.requires_cbn_notification …`.
unfoldable pub draft_cbn : Env → Incident → String → Db → Db
unfolding add_timeline add_notification
draft_cbn env incident actor db = add_timeline (cbn_row incident actor) (
    add_notification
      (record {
        incident_id = incident.id;
        regulator = "CBN";
        status = "draft";
        deadline_at = cbn_deadline env.settings incident.opened_at;
        body =
            build_cbn_notification env.strftime env.settings incident.reference
              (fstring ("vendor:" ∷ incident.vendor_id ∷ [])) incident.severity incident.category
              incident.description incident.opened_at;
      })
      db)

abbrev pub ndpc_row : Incident → String → IncidentTimeline
ndpc_row incident actor = record {
  incident_id = incident.id;
  event_type = "notification";
  actor = actor;
  message = "NDPC personal-data-breach notification drafted (72h deadline).";
  from_status = none;
  to_status = none;
}

-- The body of `if incident.requires_ndpa_notification …`.
unfoldable pub draft_ndpc : Env → Incident → String → Db → Db
unfolding add_timeline add_notification
draft_ndpc env incident actor db = add_timeline (ndpc_row incident actor) (
    add_notification
      (record {
        incident_id = incident.id;
        regulator = "NDPC";
        status = "draft";
        deadline_at = ndpa_deadline env.settings incident.opened_at;
        body =
            build_ndpc_notification env.strftime env.settings incident.reference
              (fstring ("vendor:" ∷ incident.vendor_id ∷ [])) incident.severity incident.description
              incident.opened_at;
      })
      db)

unfoldable pub maybe_draft_notifications : Env → Incident → String → Db → Db
maybe_draft_notifications env incident actor db =
    let existing = existing_regulators incident.id db in
    let db' =
      if incident.requires_cbn_notification && not (one_of "CBN" existing)
      then draft_cbn env incident actor db
      else db in
    if incident.requires_ndpa_notification && not (one_of "NDPC" existing)
    then draft_ndpc env incident actor db'
    else db'
