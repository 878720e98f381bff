-- ===== src/Sbom/Tables.antt =====
-- What the loops of an ingestion add to the tables.
use sc_tpcrs.Prelude.{String, ◌≡◌, refl, sym, ap, ◌∙◌, List, [], ◌∷◌, ◌++◌, length}
use mathlib.Core.List.{append_assoc, append-nil}
use sc_tpcrs.Prelude.Floats.{Floats}
use sc_tpcrs.Prelude.Matched.{Matched, Matched-join}
use sc_tpcrs.Sbom.Scanner.{ScannedVulnerability, ScannedComponent}
use sc_tpcrs.Sbom.Models.{SbomComponent, Vulnerability, Db, Call}
use sc_tpcrs.Sbom.Ingest.{new_component, new_vulnerability, store_vulnerabilities, store_components}

module _ (fl : Floats) where
  open fl use {F}

  -- The row holds the vulnerability that was found.
  pub record IsFinding (v : ScannedVulnerability F) (row : Vulnerability F) : Type 0 where
    pub cve_id : v.cve_id ≡ row.cve_id
    pub cvss_score : v.cvss_score ≡ row.cvss_score
    pub severity : v.severity ≡ row.severity
    pub kev_flag : v.kev_flag ≡ row.kev_flag
    pub ssvc_priority : v.ssvc_priority ≡ row.ssvc_priority

  -- The row holds the component, under the document.
  pub record IsStored (document_id : String) (s : ScannedComponent F) (row : SbomComponent)
      : Type 0 where
    pub document : row.document_id ≡ document_id
    pub purl : (s.component).purl ≡ row.purl
    pub name : (s.component).name ≡ row.component_name
    pub version : (s.component).version ≡ row.version
    pub synthesised : (s.component).synthesised ≡ row.purl_synthesised

  -- What is added to the tables of vulnerabilities and of components.
  pub record AddsFindings (vs : List (ScannedVulnerability F)) (db db' : Db F) : Type 0 where
    pub rows : List (Vulnerability F)
    pub matched : Matched IsFinding vs rows
    pub vulnerabilities : db'.vulnerabilities ≡ db.vulnerabilities ++ rows
    pub components : db'.components ≡ db.components
    pub documents : db'.documents ≡ db.documents

  store_vulnerabilities-AddsFindings :
      (call : Call) (vendor_id component_id : String) (vs : List (ScannedVulnerability F))
      (db : Db F)
      → AddsFindings vs db (store_vulnerabilities fl call vendor_id component_id vs db)
  unfolding store_vulnerabilities new_vulnerability
  store_vulnerabilities-AddsFindings call vendor_id component_id [] db = record {
    rows = [];
    matched = tt;
    vulnerabilities = sym (append-nil db.vulnerabilities);
    components = refl;
    documents = refl;
  }
  store_vulnerabilities-AddsFindings call vendor_id component_id (v ∷ vs) db =
      let row : Vulnerability F =
        new_vulnerability fl call vendor_id component_id (length db.vulnerabilities) v in
      let later =
        store_vulnerabilities-AddsFindings call vendor_id component_id vs
          (record db { vulnerabilities = db.vulnerabilities ++ row ∷ [] }) in
      record {
        rows = row ∷ later.rows;
        matched = (
          record {
            cve_id = refl;
            cvss_score = refl;
            severity = refl;
            kev_flag = refl;
            ssvc_priority = refl;
          },
          later.matched,
        );
        vulnerabilities =
            later.vulnerabilities ∙ append_assoc db.vulnerabilities (row ∷ []) later.rows;
        components = later.components;
        documents = later.documents;
      }

  abbrev pub found_in : List (ScannedComponent F) → List (ScannedVulnerability F)
  found_in [] = []
  found_in (s ∷ scanned) = s.vulnerabilities ++ found_in scanned

  pub record AddsComponents (document_id : String) (scanned : List (ScannedComponent F))
      (db db' : Db F) : Type 0 where
    pub rows : List SbomComponent
    pub matched : Matched (IsStored document_id) scanned rows
    pub findings : List (Vulnerability F)
    pub found : Matched IsFinding (found_in scanned) findings
    pub vulnerabilities : db'.vulnerabilities ≡ db.vulnerabilities ++ findings
    pub components : db'.components ≡ db.components ++ rows
    pub documents : db'.documents ≡ db.documents

  pub store_components-AddsComponents :
      (call : Call) (vendor_id : String) (scanned : List (ScannedComponent F)) (db : Db F)
      → AddsComponents call.document_id scanned db (store_components fl call vendor_id scanned db)
  unfolding store_components new_component
  store_components-AddsComponents call vendor_id [] db = record {
    rows = [];
    matched = tt;
    findings = [];
    found = tt;
    vulnerabilities = sym (append-nil db.vulnerabilities);
    components = sym (append-nil db.components);
    documents = refl;
  }
  store_components-AddsComponents call vendor_id (s ∷ scanned) db =
      let comp = new_component call vendor_id (length db.components) s.component in
      let with_comp : Db F = record db { components = db.components ++ comp ∷ [] } in
      let one =
        store_vulnerabilities-AddsFindings call vendor_id comp.id s.vulnerabilities with_comp in
      let db1 = store_vulnerabilities fl call vendor_id comp.id s.vulnerabilities with_comp in
      let later = store_components-AddsComponents call vendor_id scanned db1 in
      record {
        rows = comp ∷ later.rows;
        matched = (
          record { document = refl; purl = refl; name = refl; version = refl; synthesised = refl },
          later.matched,
        );
        findings = one.rows ++ later.findings;
        found = Matched-join IsFinding s.vulnerabilities _ one.rows _ one.matched later.found;
        vulnerabilities =
            later.vulnerabilities
            ∙ ap (λ l. l ++ later.findings) one.vulnerabilities
            ∙ append_assoc db.vulnerabilities one.rows later.findings;
        components =
            later.components
            ∙ ap (λ l. l ++ later.rows) one.components
            ∙ append_assoc db.components (comp ∷ []) later.rows;
        documents = later.documents ∙ one.documents;
      }
