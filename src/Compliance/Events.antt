-- ===== src/Compliance/Events.antt =====
-- services/compliance-service/app/services/events.py: a baseline assessment for a vendor that reaches one of two
-- states.
use sc_tpcrs.Prelude.{
  String, Bool, not, ◌||◌, Option, [], ◌∷◌, fstring, or_else, Result, ok, Error, ◌>>=◌, or_raise,
  if◌then◌else◌,
}
use sc_tpcrs.Prelude.Floats.{Floats}
use sc_tpcrs.Prelude.Value.{
  Value, null, str, real, Details, Detail, get_or, truthy, to_text, is_text,
}
use sc_tpcrs.Kafka.{Event}
use sc_tpcrs.Audit.{Hashing}
use sc_tpcrs.Compliance.Models.{Assessment, World, Call}
use sc_tpcrs.Compliance.Service.{run_assessment, audit}
use sc_tpcrs.Compliance.Router.{publish_assessment_event}

-- `to_state in TRIGGER_STATES`.
abbrev pub is_trigger : Value → Bool
is_trigger v = is_text v "ASSESSMENT_IN_PROGRESS" || is_text v "ONBOARDED"

module _ (fl : Floats) where
  open fl use {F, repr}

  unfoldable pub trigger_details : Assessment F → Value → Details
  trigger_details a to_state =
      ("framework", Detail.value (str "ALL"))
      ∷ ("compliance_score", Detail.value (real (repr a.compliance_score)))
      ∷ ("status", Detail.value (str a.status))
      ∷ ("trigger_state", Detail.value to_state)
      ∷ []

  -- `parse_uuid` is the text of `uuid.UUID(...)`, none if it raises `ValueError`.
  unfoldable pub assess_vendor :
      Hashing
      → (String → Option String)
      → (String → String → F)
      → Call
      → Value
      → Value
      → World F
      → Result (World F)
  unfolding trigger_details audit
  assess_vendor hashing parse_uuid random call to_state vendor_id w = do
    vendor_uuid ←
        or_raise (parse_uuid (to_text vendor_id))
          (Error.value_error "badly formed hexadecimal UUID string")
    r ← run_assessment fl random call vendor_uuid "ALL" [] "system:vendor-lifecycle" w.db
    ok (record {
      db =
          audit fl hashing call "system:vendor-lifecycle" "COMPLIANCE_ASSESSED"
            (fstring ("vendor:" ∷ to_text vendor_id ∷ [])) (trigger_details r.0 to_state) r.1;
      bus = (publish_assessment_event fl r.0 w.bus).1;
    })

  unfoldable pub handle_vendor_lifecycle_event :
      Hashing
      → (String → Option String)
      → (String → String → F)
      → Call
      → Event
      → World F
      → Result (World F)
  handle_vendor_lifecycle_event hashing parse_uuid random call event w =
      let payload = or_else event.payload [] in
      let to_state = get_or payload "to_state" null in
      let vendor_id = get_or payload "vendor_id" null in
      if not (is_trigger to_state) || not (truthy vendor_id)
      then ok w
      else assess_vendor hashing parse_uuid random call to_state vendor_id w
