-- ===== src/Sbom/Ingest.antt =====
-- services/sbom-service/app/services/ingest.py, services/events.py and the route of the ingestion in
-- routers/sbom.py. The mirror in Neo4j never fails and is not read back, so it is left out here. Of the answer
-- only the document is kept: the route reads the rows again, and the measured time is not modelled.
pub mod Rows
unfoldable pub use Rows.{screen_refs, notes_of, new_component, new_document, new_vulnerability}
pub use Rows.{is_empty, is_critical}
use sc_tpcrs.Prelude.{
  ℕ, String, Bool, true, false, not, ◌||◌, Option, none, some, List, [], ◌∷◌, ◌++◌, map, ◌==◌,
  length, select, count_where, fstring, Result, ok, err, Error, ◌>>=◌, if◌then◌else◌,
}
use sc_tpcrs.Prelude.Floats.{Floats}
use sc_tpcrs.Prelude.Value.{Value, null, str, boolean, integer, real, Dict, Details, Detail}
use sc_tpcrs.Kafka.{Bus, publish, cve_alerts, sbom_ingestion_events}
use sc_tpcrs.Audit.{Hashing, record_audit_event}
use sc_tpcrs.Jwt.{TokenPayload, require_role}
use sc_tpcrs.Sbom.Json.{Json}
use sc_tpcrs.Sbom.Purl.{PurlLibrary, NormalisedComponent}
use sc_tpcrs.Sbom.Scanner.{Feeds, ScannedVulnerability, ScannedComponent, scan_components}
use sc_tpcrs.Sbom.Ssrf.{Settings, Network, is_ref_fetchable}
use sc_tpcrs.Sbom.Parsers.{ParsedSbom}
use sc_tpcrs.Sbom.Detect.{Readers, Detected, document, parse_error, detect_and_parse}
use sc_tpcrs.Sbom.Models.{
  SynthesisedNote, RefNote, ReviewNotes, SbomDocument, SbomComponent, Vulnerability, Db, World,
  Call,
}

module _ (fl : Floats) where
  open fl use {F, repr}

  unfoldable pub store_vulnerabilities :
      Call → String → String → List (ScannedVulnerability F) → Db F → Db F
  unfolding new_vulnerability
  store_vulnerabilities call vendor_id component_id [] db = db
  store_vulnerabilities call vendor_id component_id (v ∷ vs) db =
      store_vulnerabilities call vendor_id component_id vs (record db {
        vulnerabilities =
            db.vulnerabilities
            ++ new_vulnerability fl call vendor_id component_id (length db.vulnerabilities) v ∷ [];
      })

  -- The loop over the scanned components.
  unfoldable pub store_components : Call → String → List (ScannedComponent F) → Db F → Db F
  unfolding new_component
  store_components call vendor_id [] db = db
  store_components call vendor_id (s ∷ scanned) db =
      let comp = new_component call vendor_id (length db.components) s.component in
      store_components call vendor_id scanned (
        store_vulnerabilities call vendor_id comp.id s.vulnerabilities
          (record db { components = db.components ++ comp ∷ [] }))

  -- The vulnerabilities that the loop adds to the critical list, as they were scanned.
  unfoldable pub critical_of : List (ScannedComponent F) → List (ScannedVulnerability F)
  critical_of [] = []
  critical_of (s ∷ scanned) =
      select (λ (v : ScannedVulnerability F). v.severity == "Critical" || v.kev_flag)
        s.vulnerabilities
      ++ critical_of scanned

  unfoldable pub ingested_details : SbomDocument → Details
  ingested_details d =
      ("document_id", Detail.value (str d.id))
      ∷ ("format", Detail.value (str d.sbom_format))
      ∷ ("components", Detail.value (integer d.component_count))
      ∷ ("vulnerable", Detail.value (integer d.vulnerable_count))
      ∷ ("incomplete", Detail.value (boolean d.incomplete))
      ∷ []

  unfoldable pub store : Hashing → Call → SbomDocument → List (ScannedComponent F) → Db F → Db F
  unfolding ingested_details
  store hashing call d scanned db =
      let db' =
        store_components call d.vendor_id scanned
          (record db { documents = db.documents ++ d ∷ [] }) in
      record db' {
        audit_log =
            record_audit_event hashing d.ingested_by "SBOM_INGESTED"
              (fstring ("vendor:" ∷ d.vendor_id ∷ [])) (some (ingested_details d)) call.now_text
              db'.audit_log;
      }

  unfoldable pub publish_ingestion_event : SbomDocument → Bus → Bus
  publish_ingestion_event d bus =
      (publish sbom_ingestion_events "sbom.ingested"
        (("vendor_id", str d.vendor_id)
          ∷ ("document_id", str d.id)
          ∷ ("component_count", integer d.component_count)
          ∷ ("vulnerable_count", integer d.vulnerable_count)
          ∷ [])
        (some d.vendor_id) bus).1

  abbrev score_value : Option F → Value
  score_value none = null
  score_value (some cvss) = real (repr cvss)

  unfoldable pub cve_payload : String → ScannedVulnerability F → Dict
  cve_payload vendor_id v =
      ("vendor_id", str vendor_id)
      ∷ ("cve_id", str v.cve_id)
      ∷ ("cvss_score", score_value v.cvss_score)
      ∷ ("severity", str v.severity)
      ∷ ("kev_flag", boolean v.kev_flag)
      ∷ []

  unfoldable pub publish_cve_alerts : String → List (ScannedVulnerability F) → Bus → Bus
  unfolding cve_payload
  publish_cve_alerts vendor_id [] bus = bus
  publish_cve_alerts vendor_id (v ∷ vs) bus =
      publish_cve_alerts vendor_id vs
        (publish cve_alerts "cve.detected" (cve_payload vendor_id v) (some vendor_id) bus).1

  -- A `SbomParseError` is a value, as in `Detected`.
  pub data Ingested : Type 0 where
    done : SbomDocument → World F → Ingested
    refused : String → Ingested

  unfoldable pub ingest_parsed :
      Hashing
      → Network
      → Settings
      → Feeds F
      → Call
      → String
      → String
      → Option String
      → ParsedSbom
      → World F
      → Result (SbomDocument × World F)
  ingest_parsed hashing network settings feeds call vendor_id actor document_name parsed w = do
    refs ← screen_refs network settings parsed.external_refs
    scanned ← scan_components fl feeds parsed.components
    let d = new_document fl call vendor_id actor document_name parsed refs scanned
    ok (
      d,
      record {
        db = store hashing call d scanned w.db;
        bus = publish_cve_alerts vendor_id (critical_of scanned) (publish_ingestion_event d w.bus);
      },
    )

  pub record IngestRequest : Type 0 where
    pub vendor_id : String
    pub content : String
    pub document_name : Option String
    pub format_hint : Option String

  -- What follows the parse in `ingest_sbom`.
  unfoldable pub ingest_detected :
      Hashing
      → Network
      → Settings
      → Feeds F
      → Call
      → String
      → IngestRequest
      → World F
      → Detected
      → Result Ingested
  ingest_detected hashing network settings feeds call actor payload w (parse_error message) =
      ok (refused message)
  ingest_detected hashing network settings feeds call actor payload w (document parsed) = do
    r ←
        ingest_parsed hashing network settings feeds call payload.vendor_id actor
          payload.document_name parsed w
    ok (done r.0 r.1)

  unfoldable pub ingest_sbom :
      PurlLibrary
      → Readers
      → Hashing
      → Network
      → Settings
      → Feeds F
      → Call
      → String
      → IngestRequest
      → World F
      → Result Ingested
  unfolding ingest_detected
  ingest_sbom library readers hashing network settings feeds call actor payload w = do
    detected ← detect_and_parse library readers payload.content payload.format_hint
    ingest_detected hashing network settings feeds call actor payload w detected

  -- A `SbomParseError` is answered with 422.
  unfoldable pub answer : Ingested → Result (SbomDocument × World F)
  answer (refused message) = err (Error.http 422 message)
  answer (done d w) = ok (d, w)

  -- `POST /sbom/ingest`: the document, and the world after it.
  unfoldable pub ingest :
      PurlLibrary
      → Readers
      → Hashing
      → Network
      → Settings
      → Feeds F
      → Call
      → TokenPayload
      → IngestRequest
      → World F
      → Result (SbomDocument × World F)
  unfolding ingest_sbom answer
  ingest library readers hashing network settings feeds call user payload w = do
    writer ← require_role ("risk_officer" ∷ "ciso" ∷ "admin" ∷ []) user
    r ← ingest_sbom library readers hashing network settings feeds call writer.sub payload w
    answer r
