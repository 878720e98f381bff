-- ===== src/Risk/Sources.antt =====
-- services/risk-service/app/services/category_sources/. The adapters and the answers of vendor-service come from
-- outside.
use sc_tpcrs.Prelude.{
  ℕ, String, Bool, Option, none, some, List, [], ◌∷◌, ◌==◌, ◌&&◌, ltb, leb, nat_eq, select,
  find_first, Result, ok, err, Error, ◌>>=◌, if◌then◌else◌,
}
use sc_tpcrs.Prelude.Floats.{Floats, py_min, py_max}
use sc_tpcrs.Risk.Models.{VendorTechStack, Db}

-- What a request to vendor-service ends in: an error of the connection, or a status and the decoded body, whose
-- decoding may raise.
pub data Reply (A : Type 0) : Type 0 where
  unreachable : Reply A
  response : ℕ → Result A → Reply A

-- The adapters' data: the posture score, the numbers of matches and of reports, the scores of a component's
-- vulnerabilities by identifier, and whether one is listed. `documents` are the types of the documents.
pub record Adapters (F : Type 0) : Type 0 where
  pub questionnaire : String → Reply F
  pub documents : String → Reply (List String)
  pub shodan : String → Result F
  pub misp : String → Result ℕ
  pub abuseipdb : String → Result ℕ
  pub nvd : String → String → String → Result (List (String × F))
  pub kev : String → String → String → Result Bool

-- `resp.raise_for_status()`.
abbrev is_success : ℕ → Bool
is_success status = leb 200 status && ltb status 300

-- The body of a successful answer; nothing if vendor-service cannot be reached or does not know the vendor.
unfoldable pub fetched : {A : Type 0} → Reply A → Result (Option A)
fetched unreachable = ok none
fetched (response status body) =
    if nat_eq status 404
    then ok none
    else if is_success status
    then (body >>= λ a. ok (some a))
    else err (Error.external "HTTPStatusError")

module _ (fl : Floats) where
  open fl use {F, literal, of_int, add, sub, mul, le, round2}

  unfoldable pub get_questionnaire_score : Adapters F → String → Result F
  unfolding fetched
  get_questionnaire_score adapters vendor_id = do
    score ← fetched (adapters.questionnaire vendor_id)
    ok (elim score [ none ↦ literal "0.0" | some s ↦ s ])

  unfoldable pub document_type_weights : List (String × F)
  document_type_weights =
      ("ISO27001_CERT", literal "40.0")
      ∷ ("SOC2_REPORT", literal "30.0")
      ∷ ("PCI_DSS_AOC", literal "20.0")
      ∷ []

  unfoldable pub weight_of : String → F
  unfolding document_type_weights
  weight_of document_type =
      elim (find_first (λ (e : String × F). (e.0) == document_type) document_type_weights) [
        | none ↦ literal "10.0"
        | some e ↦ e.1
      ]

  unfoldable pub sum_documents : F → List String → F
  unfolding weight_of
  sum_documents score [] = score
  sum_documents score (d ∷ ds) = sum_documents (add score (weight_of d)) ds

  unfoldable pub get_compliance_score : Adapters F → String → Result F
  unfolding fetched sum_documents
  get_compliance_score adapters vendor_id = do
    documents ← fetched (adapters.documents vendor_id)
    ok (elim documents [
      | none ↦ literal "0.0"
      | some ds ↦ py_min fl (literal "100.0") (round2 (sum_documents (literal "0.0") ds))
    ])

  unfoldable pub get_external_posture_score : Adapters F → String → Result F
  get_external_posture_score adapters vendor_id = adapters.shodan vendor_id

  unfoldable pub get_breach_history_score : Adapters F → String → Result F
  get_breach_history_score adapters vendor_id = do
    report_count ← adapters.abuseipdb vendor_id
    let score = round2 (sub (literal "100.0") (mul (of_int report_count) (literal "15.0")))
    ok (py_max fl (literal "0.0") score)

  unfoldable pub get_threat_intel_score : Adapters F → String → Result F
  get_threat_intel_score adapters vendor_id = do
    match_count ← adapters.misp vendor_id
    let score = round2 (sub (literal "100.0") (mul (of_int match_count) (literal "10.0")))
    ok (py_max fl (literal "0.0") score)

  unfoldable pub cve_penalty : F → Bool → F
  cve_penalty cvss_score is_kev =
      if le (literal "9.0") cvss_score
      then if is_kev then literal "60.0" else literal "40.0"
      else if le (literal "7.0") cvss_score
      then literal "20.0"
      else if le (literal "4.0") cvss_score
      then literal "10.0"
      else literal "3.0"

  unfoldable pub penalise_cves : Adapters F → VendorTechStack → List (String × F) → F → Result F
  unfolding cve_penalty
  penalise_cves adapters c [] score = ok score
  penalise_cves adapters c ((cve_id, cvss) ∷ cves) score = do
    is_kev ← adapters.kev cve_id c.component_name c.component_version
    penalise_cves adapters c cves (sub score (cve_penalty cvss is_kev))

  unfoldable pub penalise : Adapters F → List VendorTechStack → F → Result F
  unfolding penalise_cves
  penalise adapters [] score = ok score
  penalise adapters (c ∷ cs) score = do
    cves ← adapters.nvd c.component_name c.component_version c.ecosystem
    score' ← penalise_cves adapters c cves score
    penalise adapters cs score'

  unfoldable pub get_vulnerability_score : Adapters F → String → Db F → Result F
  unfolding penalise
  get_vulnerability_score adapters vendor_id db = do
    score ←
        penalise adapters (select (λ (c : VendorTechStack). c.vendor_id == vendor_id) db.tech_stack)
          (literal "100.0")
    ok (py_max fl (literal "0.0") (round2 score))
