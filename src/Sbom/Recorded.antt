-- ===== src/Sbom/Recorded.antt =====
-- What an ingestion leaves in the tables, and the alerts that it sends.
use sc_tpcrs.Prelude.{
  suc, String, ◌≡◌, refl, sym, ap, ◌∙◌, subst, inl, inr, Bool, not, ◌||◌, Option, List, [], ◌∷◌,
  ◌++◌, map, ◌==◌, length, select, select-append, count_where, any_where, ok, bind-ok, ok-injective,
  Bool-cases,
}
use sc_tpcrs.Prelude.Floats.{Floats}
use sc_tpcrs.Prelude.Matched.{Matched, Matched-length, select-Matched}
use sc_tpcrs.Audit.{Hashing}
use sc_tpcrs.Jwt.{TokenPayload, require_role}
use sc_tpcrs.Sbom.Purl.{PurlLibrary, NormalisedComponent}
use sc_tpcrs.Sbom.Scanner.{Feeds, ScannedVulnerability, ScannedComponent, scan_components}
use sc_tpcrs.Sbom.Ssrf.{Settings, Network}
use sc_tpcrs.Sbom.Parsers.{ParsedSbom}
use sc_tpcrs.Sbom.Models.{RefNote, SbomDocument, SbomComponent, Vulnerability, World, Call}
use sc_tpcrs.Sbom.Ingest.{
  screen_refs, new_document, critical_of, store, publish_ingestion_event, publish_cve_alerts,
  ingest_parsed, is_critical, is_empty,
}
use sc_tpcrs.Sbom.Scanned.{IsScanned, scan_components-Matched, components_of_scan}
use sc_tpcrs.Sbom.Delivered.{Delivered, publish_cve_alerts-Delivered}
use sc_tpcrs.Sbom.Tables.{IsFinding, IsStored, found_in, store_components-AddsComponents}
use sc_tpcrs.Sbom.Detect.{Readers, Detected, document, parse_error, detect_and_parse}
use sc_tpcrs.Sbom.Ingest.{Ingested, IngestRequest, ingest_detected, ingest_sbom, answer, ingest}

module _ (fl : Floats) where
  open fl use {F}

  abbrev is_alert : ScannedVulnerability F → Bool
  is_alert v = v.severity == "Critical" || v.kev_flag

  critical_of_lem :
      (scanned : List (ScannedComponent F))
      → critical_of fl scanned ≡ select is_alert (found_in fl scanned)
  unfolding critical_of
  critical_of_lem [] = refl
  critical_of_lem (s ∷ scanned) =
      ap (λ l. select is_alert s.vulnerabilities ++ l) (critical_of_lem scanned)
      ∙ sym (select-append is_alert s.vulnerabilities (found_in fl scanned))

  -- A document is incomplete where a stored component has a purl of our own making.
  incomplete_lem :
      (document_id : String) (scanned : List (ScannedComponent F)) (rows : List SbomComponent)
      → Matched (IsStored fl document_id) scanned rows
      → not (
          is_empty (
            select
              (λ (c : NormalisedComponent). c.synthesised)
              (map (λ (s : ScannedComponent F). s.component) scanned)))
        ≡ any_where (λ (r : SbomComponent). r.purl_synthesised) rows
  incomplete_lem document_id [] [] h = refl
  incomplete_lem document_id [] (r ∷ rows) h = absurd h
  incomplete_lem document_id (s ∷ scanned) [] h = absurd h
  incomplete_lem document_id (s ∷ scanned) (r ∷ rows) h =
      elim (Bool-cases (s.component).synthesised) [
        | inl made ↦ rw (made, sym (h.0).synthesised ∙ made) refl
        | inr given ↦
            rw (given, sym (h.0).synthesised ∙ given) (incomplete_lem document_id scanned rows h.1)
      ]

  -- What an ingestion leaves behind, relative to the document that was parsed.
  pub record IsIngested (feeds : Feeds F) (parsed : ParsedSbom) (vendor_id : String)
      (d : SbomDocument) (w w' : World F) : Type 0 where
    pub scanned : List (ScannedComponent F)
    pub complete : Matched (IsScanned fl feeds) parsed.components scanned
    pub rows : List SbomComponent
    pub stored : Matched (IsStored fl d.id) scanned rows
    pub findings : List (Vulnerability F)
    pub found : Matched (IsFinding fl) (found_in fl scanned) findings
    pub documents : (w'.db).documents ≡ (w.db).documents ++ d ∷ []
    pub components : (w'.db).components ≡ (w.db).components ++ rows
    pub vulnerabilities : (w'.db).vulnerabilities ≡ (w.db).vulnerabilities ++ findings
    pub counted : d.component_count ≡ length rows
    pub vulnerable :
        d.vulnerable_count
        ≡ count_where (λ (s : ScannedComponent F). not (is_empty s.vulnerabilities)) scanned
    pub incomplete : d.incomplete ≡ any_where (λ (r : SbomComponent). r.purl_synthesised) rows
    pub delivered :
        Delivered fl vendor_id d
          (select (λ (row : Vulnerability F). row.severity == "Critical" || row.kev_flag) findings)
          w.bus
          w'.bus

  critical_agrees :
      (v : ScannedVulnerability F) (row : Vulnerability F)
      → IsFinding fl v row
      → is_alert v ≡ is_critical row
  critical_agrees v row h = rw (h.severity, h.kev_flag) refl

  length-map : {A B : Type 0} (f : A → B) (xs : List A) → length (map f xs) ≡ length xs
  length-map f [] = refl
  length-map f (x ∷ xs) = ap suc (length-map f xs)

  ingested :
      (feeds : Feeds F) (hashing : Hashing) (call : Call) (vendor_id actor : String)
      (document_name : Option String) (parsed : ParsedSbom) (refs : List RefNote)
      (scanned : List (ScannedComponent F)) (w : World F)
      → Matched (IsScanned fl feeds) parsed.components scanned
      → let d = new_document fl call vendor_id actor document_name parsed refs scanned in
        IsIngested feeds parsed vendor_id d w (record {
          db = store fl hashing call d scanned w.db;
          bus =
              publish_cve_alerts fl vendor_id
                (critical_of fl scanned)
                (publish_ingestion_event fl d w.bus);
        })
  unfolding store new_document
  ingested feeds hashing call vendor_id actor document_name parsed refs scanned w complete =
      let d = new_document fl call vendor_id actor document_name parsed refs scanned in
      let adds =
        store_components-AddsComponents fl call vendor_id scanned
          (record w.db { documents = (w.db).documents ++ d ∷ [] }) in
      let components = components_of_scan fl feeds parsed.components scanned complete in
      record {
        scanned = scanned;
        complete = complete;
        rows = adds.rows;
        stored = adds.matched;
        findings = adds.findings;
        found = adds.found;
        documents = adds.documents;
        components = adds.components;
        vulnerabilities = adds.vulnerabilities;
        counted =
            ap length (sym components)
            ∙ length-map (λ (s : ScannedComponent F). s.component) scanned
            ∙ Matched-length (IsStored fl call.document_id) scanned adds.rows adds.matched;
        vulnerable = refl;
        incomplete =
            ap (λ l. not (is_empty (select (λ (c : NormalisedComponent). c.synthesised) l)))
              (sym components)
            ∙ incomplete_lem call.document_id scanned adds.rows adds.matched;
        delivered =
            publish_cve_alerts-Delivered fl vendor_id d (critical_of fl scanned)
              (select is_critical adds.findings) w.bus
              (subst (λ l. Matched (IsFinding fl) l (select is_critical adds.findings))
                (sym (critical_of_lem scanned))
                (select-Matched (IsFinding fl) is_alert is_critical critical_agrees
                  (found_in fl scanned) adds.findings adds.found));
      }

  ingest_parsed-IsIngested :
      (hashing : Hashing) (network : Network) (settings : Settings) (feeds : Feeds F) (call : Call)
      (vendor_id actor : String) (document_name : Option String) (parsed : ParsedSbom)
      (w w' : World F) (d : SbomDocument)
      → ingest_parsed fl hashing network settings feeds call vendor_id actor document_name parsed w
        ≡ ok (d, w')
      → IsIngested feeds parsed vendor_id d w w'
  unfolding ingest_parsed
  ingest_parsed-IsIngested hashing network settings feeds call vendor_id actor document_name parsed
        w w' d h =
      let (refs, screened, h1) = bind-ok (screen_refs network settings parsed.external_refs) h in
      let (scanned, scans, h2) = bind-ok (scan_components fl feeds parsed.components) h1 in
      subst (λ (p : SbomDocument × World F). IsIngested feeds parsed vendor_id p.0 w p.1)
        (ok-injective h2)
        (ingested feeds hashing call vendor_id actor document_name parsed refs scanned w
          (scan_components-Matched fl feeds parsed.components scanned scans))

  -- A document that is answered has been ingested.
  ingest_detected-IsIngested :
      (hashing : Hashing) (network : Network) (settings : Settings) (feeds : Feeds F) (call : Call)
      (actor : String) (payload : IngestRequest fl) (w w' : World F) (d : SbomDocument)
      (detected : Detected) (r : Ingested fl)
      → ingest_detected fl hashing network settings feeds call actor payload w detected ≡ ok r
      → answer fl r ≡ ok (d, w')
      → (parsed : ParsedSbom) × (detected ≡ document parsed)
        × IsIngested feeds parsed payload.vendor_id d w w'
  unfolding ingest_detected answer
  ingest_detected-IsIngested hashing network settings feeds call actor payload w w' d
        (parse_error message) r h a =
      let refusal = ap (answer fl) (ok-injective h) ∙ a in cc refusal
  ingest_detected-IsIngested hashing network settings feeds call actor payload w w' d
        (document parsed) r h a =
      let (x, ran, h1) =
        bind-ok
          (ingest_parsed fl hashing network settings feeds call payload.vendor_id actor
            payload.document_name parsed w)
          h in
      let same : x ≡ (d, w') = ok-injective (ap (answer fl) (ok-injective h1) ∙ a) in
      (
        parsed,
        refl,
        ingest_parsed-IsIngested hashing network settings feeds call payload.vendor_id actor
            payload.document_name parsed w w' d (ran ∙ ap ok same),
      )

  -- A successful ingestion has recognised the document, and has stored one row for each of its
  -- components under the new document and one for each vulnerability that NVD has of them, marked
  -- if KEV lists it. The counts and the mark for review are those of the rows. Where the broker
  -- accepts messages, a notice of the document is sent and then one alert for each of the rows that
  -- are critical or listed, in their order; where it does not, nothing is sent.
  pub ingest-IsIngested :
      (library : PurlLibrary) (readers : Readers) (hashing : Hashing) (network : Network)
      (settings : Settings) (feeds : Feeds F) (call : Call) (user : TokenPayload)
      (payload : IngestRequest fl) (w w' : World F) (d : SbomDocument)
      → ingest fl library readers hashing network settings feeds call user payload w ≡ ok (d, w')
      → (parsed : ParsedSbom) × (detect_and_parse library readers payload.content
            payload.format_hint
          ≡ ok (document parsed))
        × IsIngested feeds parsed payload.vendor_id d w w'
  unfolding ingest ingest_sbom
  ingest-IsIngested library readers hashing network settings feeds call user payload w w' d h =
      let (writer, allowed, h1) =
        bind-ok (require_role ("risk_officer" ∷ "ciso" ∷ "admin" ∷ []) user) h in
      let (r, ingested_as, h2) =
        bind-ok
          (ingest_sbom fl library readers hashing network settings feeds call writer.sub payload w)
          h1 in
      let (detected, detects, h3) =
        bind-ok (detect_and_parse library readers payload.content payload.format_hint)
          ingested_as in
      let (parsed, is_document, facts) =
        ingest_detected-IsIngested hashing network settings feeds call writer.sub payload w w' d
          detected r h3 h2 in
      (parsed, detects ∙ ap ok is_document, facts)
