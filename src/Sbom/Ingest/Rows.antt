-- ===== src/Sbom/Ingest/Rows.antt =====
-- The rows and the notes for review of services/sbom-service/app/services/ingest.py.
use sc_tpcrs.Prelude.{
  ℕ, String, Bool, true, false, not, ◌||◌, Option, none, some, List, [], ◌∷◌, map, ◌==◌, length,
  select, count_where, Result, ok, err, Error, ◌>>=◌, if◌then◌else◌,
}
use sc_tpcrs.Prelude.Floats.{Floats}
use sc_tpcrs.Sbom.Json.{Json}
use sc_tpcrs.Sbom.Purl.{NormalisedComponent}
use sc_tpcrs.Sbom.Scanner.{ScannedVulnerability, ScannedComponent}
use sc_tpcrs.Sbom.Ssrf.{Settings, Network, is_ref_fetchable}
use sc_tpcrs.Sbom.Parsers.{ParsedSbom}
use sc_tpcrs.Sbom.Models.{
  SynthesisedNote, RefNote, ReviewNotes, SbomDocument, SbomComponent, Vulnerability, Call,
}

-- A reference that is no text makes `urlparse` raise.
unfoldable pub screen_refs : Network → Settings → List Json → Result (List RefNote)
screen_refs network settings [] = ok []
screen_refs network settings (Json.str url ∷ refs) = do
  rest ← screen_refs network settings refs
  let decision = is_ref_fetchable network settings url
  let note : RefNote = record { url = url; action = "not_fetched"; reason = decision.1 }
  ok (if decision.0 then rest else note ∷ rest)
screen_refs network settings (other ∷ refs) = err (Error.external "AttributeError")

unfoldable pub notes_of : List NormalisedComponent → List RefNote → ReviewNotes
notes_of components refs = record {
  synthesised_purls =
      map
        (λ (c : NormalisedComponent).
          let note : SynthesisedNote = record {
            name = c.name;
            version = c.version;
            purl = c.purl;
          } in
          note)
        (select (λ (c : NormalisedComponent). c.synthesised) components);
  external_refs = refs;
}

-- `document_name or parsed.document_name`.
abbrev name_or : Option String → Option Json → Option Json
name_or none parsed = parsed
name_or (some s) parsed = if s == "" then parsed else some (Json.str s)

abbrev pub is_empty {ℓ} : {A : Type ℓ} → List A → Bool
is_empty [] = true
is_empty (x ∷ xs) = false

-- What the critical list of an ingestion holds.
abbrev pub is_critical : {F : Type 0} → Vulnerability F → Bool
is_critical v = v.severity == "Critical" || v.kev_flag

unfoldable pub new_component : Call → String → ℕ → NormalisedComponent → SbomComponent
new_component call vendor_id n c = record {
  id = call.component_id n;
  document_id = call.document_id;
  vendor_id = vendor_id;
  component_name = c.name;
  version = c.version;
  ecosystem = c.ecosystem;
  purl = c.purl;
  cpe = c.cpe;
  file_hash = c.file_hash;
  purl_synthesised = c.synthesised;
}

module _ (fl : Floats) where
  open fl use {F, repr}

  unfoldable pub new_document :
      Call
      → String
      → String
      → Option String
      → ParsedSbom
      → List RefNote
      → List (ScannedComponent F)
      → SbomDocument
  unfolding notes_of
  new_document call vendor_id actor document_name parsed refs scanned = record {
    id = call.document_id;
    vendor_id = vendor_id;
    sbom_format = parsed.sbom_format;
    spec_version = parsed.spec_version;
    serialization = parsed.serialization;
    document_name = name_or document_name parsed.document_name;
    component_count = length parsed.components;
    vulnerable_count =
        count_where (λ (s : ScannedComponent F). not (is_empty s.vulnerabilities)) scanned;
    incomplete =
        not (is_empty (select (λ (c : NormalisedComponent). c.synthesised) parsed.components));
    review_notes = notes_of parsed.components refs;
    ingested_by = actor;
    ingested_at = call.now;
  }

  unfoldable pub new_vulnerability :
      Call → String → String → ℕ → ScannedVulnerability F → Vulnerability F
  new_vulnerability call vendor_id component_id n v = record {
    id = call.vulnerability_id n;
    component_id = component_id;
    vendor_id = vendor_id;
    cve_id = v.cve_id;
    description = v.description;
    cvss_score = v.cvss_score;
    cvss_vector = v.cvss_vector;
    severity = v.severity;
    kev_flag = v.kev_flag;
    known_ransomware = v.known_ransomware;
    ssvc_priority = v.ssvc_priority;
    status = "Open";
    detected_at = call.now;
  }
