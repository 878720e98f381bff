-- ===== src/Sbom/Delivered.antt =====
-- The messages that an ingestion sends.
use sc_tpcrs.Prelude.{
  String, ◌≡◌, refl, sym, ap, ◌∙◌, inl, inr, true, false, Option, none, some, List, [], ◌∷◌, ◌++◌,
  Bool-cases,
}
use mathlib.Core.List.{append-nil, append_assoc}
use sc_tpcrs.Prelude.Floats.{Floats}
use sc_tpcrs.Prelude.Matched.{Matched}
use sc_tpcrs.Prelude.Value.{Value, null, str, boolean, integer, real}
use sc_tpcrs.Kafka.{Bus, Message, Carries, accepts, publish-Added, publish_refused}
use sc_tpcrs.Sbom.Scanner.{ScannedVulnerability}
use sc_tpcrs.Sbom.Models.{SbomDocument, Vulnerability}
use sc_tpcrs.Sbom.Tables.{IsFinding}
use sc_tpcrs.Sbom.Ingest.{publish_ingestion_event, publish_cve_alerts}

module _ (fl : Floats) where
  open fl use {F, repr}

  abbrev number_or_null : Option F → Value
  number_or_null none = null
  number_or_null (some cvss) = real (repr cvss)

  -- An alert under the vendor, whose payload is of the row.
  abbrev pub IsAlert : String → Vulnerability F → Message → Type 0
  IsAlert vendor_id row =
      Carries "cve.alerts" "cve.detected"
        (("vendor_id", str vendor_id)
          ∷ ("cve_id", str row.cve_id)
          ∷ ("cvss_score", number_or_null row.cvss_score)
          ∷ ("severity", str row.severity)
          ∷ ("kev_flag", boolean row.kev_flag)
          ∷ [])
        (some vendor_id)

  abbrev pub IsNotice : SbomDocument → Message → Type 0
  IsNotice d =
      Carries "sbom.ingestion.events" "sbom.ingested"
        (("vendor_id", str d.vendor_id)
          ∷ ("document_id", str d.id)
          ∷ ("component_count", integer d.component_count)
          ∷ ("vulnerable_count", integer d.vulnerable_count)
          ∷ [])
        (some d.vendor_id)

  -- Where the broker accepts messages, the notice and one alert for each row are sent, in their order;
  -- where it does not, nothing is.
  pub data Delivered (vendor_id : String) (d : SbomDocument) (rows : List (Vulnerability F))
      (bus bus' : Bus) : Type 0 where
    all_sent :
        (notice : Message) (alerts : List Message)
        → accepts bus ≡ true
        → IsNotice d notice
        → Matched (IsAlert vendor_id) rows alerts
        → bus'.sent ≡ bus.sent ++ notice ∷ alerts
        → Delivered vendor_id d rows bus bus'
    none_sent : accepts bus ≡ false → bus'.sent ≡ bus.sent → Delivered vendor_id d rows bus bus'

  module _ (vendor_id : String) where
    alerts_sent :
        (vs : List (ScannedVulnerability F)) (rows : List (Vulnerability F)) (bus : Bus)
        → Matched (IsFinding fl) vs rows
        → accepts bus ≡ true
        → (alerts : List Message) × Matched (IsAlert vendor_id) rows alerts
          × ((publish_cve_alerts fl vendor_id vs bus).sent ≡ bus.sent ++ alerts)
    unfolding publish_cve_alerts sc_tpcrs.Sbom.Ingest.cve_payload
    alerts_sent [] [] bus h a = ([], tt, sym (append-nil bus.sent))
    alerts_sent [] (row ∷ rows) bus h a = absurd h
    alerts_sent (v ∷ vs) [] bus h a = absurd h
    alerts_sent (v ∷ vs) (row ∷ rows) bus h a =
        let one = publish-Added _ _ _ _ bus a in
        let (alerts, matched, sent) = alerts_sent vs rows _ h.1 one.accepting in
        (
          one.message ∷ alerts,
          (
            rw (sym (h.0).cve_id, sym (h.0).cvss_score, sym (h.0).severity, sym (h.0).kev_flag)
                one.carries,
            matched,
          ),
          sent ∙ ap (λ l. l ++ alerts) one.sent ∙ append_assoc bus.sent (one.message ∷ []) alerts,
        )

    nothing_sent :
        (vs : List (ScannedVulnerability F)) (bus : Bus)
        → accepts bus ≡ false
        → (publish_cve_alerts fl vendor_id vs bus).sent ≡ bus.sent
    unfolding publish_cve_alerts
    nothing_sent [] bus a = refl
    nothing_sent (v ∷ vs) bus a =
        let (same, refusing) = publish_refused _ _ _ _ bus a in nothing_sent vs _ refusing ∙ same

    pub publish_cve_alerts-Delivered :
        (d : SbomDocument) (vs : List (ScannedVulnerability F)) (rows : List (Vulnerability F))
        (bus : Bus)
        → Matched (IsFinding fl) vs rows
        → Delivered vendor_id d rows bus
            (publish_cve_alerts fl vendor_id vs (publish_ingestion_event fl d bus))
    unfolding publish_ingestion_event
    publish_cve_alerts-Delivered d vs rows bus h = elim (Bool-cases (accepts bus)) [
      | inl a ↦
          let notice = publish-Added _ _ _ _ bus a in
          let (alerts, matched, sent) = alerts_sent vs rows _ h notice.accepting in
          all_sent notice.message alerts a notice.carries matched (
            sent
            ∙ ap (λ l. l ++ alerts) notice.sent
            ∙ append_assoc bus.sent (notice.message ∷ []) alerts)
      | inr a ↦
          let (same, refusing) = publish_refused _ _ _ _ bus a in
          none_sent a (nothing_sent vs _ refusing ∙ same)
    ]
