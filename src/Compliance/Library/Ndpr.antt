-- ===== src/Compliance/Library/Ndpr.antt =====
-- services/compliance-service/app/control_library/ndpr.py: Nigeria Data Protection Regulation and Act.
use sc_tpcrs.Prelude.{String, List, [], ◌∷◌, fstring, ℕ}
use sc_tpcrs.Compliance.Spec.{ControlSpec, framework_ndpr}

abbrev principles : String
principles = "Data-processing principles"

abbrev lawful : String
lawful = "Lawful basis and consent"

abbrev rights : String
rights = "Data-subject rights"

abbrev gov : String
gov = "Governance and accountability"

abbrev security : String
security = "Security and breach"

abbrev transfer : String
transfer = "Cross-border transfer"

abbrev third_party : String
third_party = "Processors and third parties"

unfoldable control : String → String → String → ℕ → List String → ControlSpec
control reference domain title weight tags = record {
  control_id = fstring ("NDPR-" ∷ reference ∷ []);
  framework = framework_ndpr;
  reference = reference;
  domain = domain;
  title = title;
  objective = fstring ("NDPR/NDPA obligation (" ∷ reference ∷ ") -- " ∷ title ∷ "." ∷ []);
  weight = weight;
  tags = tags;
}

unfoldable pub controls : List ControlSpec
unfolding control
controls =
    control "NDPR-2.1(a)" principles
      "Personal data is collected and processed lawfully, fairly and transparently" 4
      ("privacy" ∷ [])
    ∷ control "NDPR-2.1(b)" principles
        "Personal data is collected for specified, explicit and legitimate purposes" 4
        ("privacy" ∷ [])
    ∷ control "NDPR-2.1(c)" principles
        "Data processed is adequate, relevant and limited to what is necessary (minimisation)" 4
        ("privacy" ∷ [])
    ∷ control "NDPA-24(d)" principles
        "Personal data is accurate and, where necessary, kept up to date" 3 ("privacy" ∷ [])
    ∷ control "NDPA-24(e)" principles
        "Personal data is retained no longer than necessary for the purpose (storage limitation)" 4
        ("privacy" ∷ "data-protection" ∷ [])
    ∷ control "NDPR-2.2" lawful "A valid lawful basis exists for every processing activity" 5
        ("privacy" ∷ [])
    ∷ control "NDPR-2.3" lawful
        "Consent is freely given, specific, informed and unambiguous, and is documented" 5
        ("privacy" ∷ [])
    ∷ control "NDPR-2.4" lawful "Consent can be withdrawn as easily as it was given" 3
        ("privacy" ∷ [])
    ∷ control "NDPA-30" lawful "Additional safeguards apply to processing sensitive personal data" 4
        ("privacy" ∷ [])
    ∷ control "NDPA-31" lawful "Special protection is applied to the personal data of children" 4
        ("privacy" ∷ [])
    ∷ control "NDPR-3.1(a)" rights
        "Right of access: data subjects can obtain confirmation and a copy of their data" 4
        ("privacy" ∷ [])
    ∷ control "NDPR-3.1(b)" rights
        "Right to rectification of inaccurate or incomplete personal data" 3 ("privacy" ∷ [])
    ∷ control "NDPR-3.1(c)" rights "Right to erasure / to be forgotten is supported" 4
        ("privacy" ∷ [])
    ∷ control "NDPR-3.1(d)" rights "Right to restrict and object to processing is supported" 3
        ("privacy" ∷ [])
    ∷ control "NDPR-3.1(e)" rights
        "Right to data portability in a structured, machine-readable format" 3 ("privacy" ∷ [])
    ∷ control "NDPA-37" rights
        "Rights regarding automated decision-making and profiling are honoured" 3 ("privacy" ∷ [])
    ∷ control "NDPR-4.1" gov "A conspicuous, NDPR-conformant privacy policy is published" 3
        ("governance" ∷ "privacy" ∷ [])
    ∷ control "NDPA-32" gov "A qualified Data Protection Officer (DPO) is designated" 4
        ("governance" ∷ [])
    ∷ control "NDPR-4.2" gov "Records of processing activities (RoPA) are maintained" 3
        ("governance" ∷ [])
    ∷ control "NDPA-28" gov
        "A Data Protection Impact Assessment is conducted for high-risk processing" 4
        ("governance" ∷ "risk" ∷ [])
    ∷ control "NDPR-4.3" gov
        "An annual data-protection audit is filed with the regulator (for major data controllers)" 3
        ("assurance" ∷ [])
    ∷ control "NDPA-44" gov
        "The entity registers with the NDPC as a data controller/processor of major importance" 3
        ("governance" ∷ [])
    ∷ control "NDPR-2.6" security
        "Appropriate technical and organisational security measures protect personal data" 5
        ("data-protection" ∷ [])
    ∷ control "NDPA-39" security "Personal-data breaches are notified to the NDPC within 72 hours" 5
        ("incident" ∷ "privacy" ∷ [])
    ∷ control "NDPA-39(2)" security
        "Affected data subjects are notified of high-risk breaches without undue delay" 4
        ("incident" ∷ "privacy" ∷ [])
    ∷ control "NDPR-2.11" transfer
        "Cross-border transfers occur only to jurisdictions with adequate protection or safeguards"
        4 ("privacy" ∷ "cloud" ∷ [])
    ∷ control "NDPA-41" transfer
        "Transfers rely on an adequacy decision, binding instrument or a lawful derogation" 4
        ("privacy" ∷ [])
    ∷ control "NDPR-2.7" third_party
        "A written data-processing agreement binds every third-party processor" 5
        ("third-party" ∷ "privacy" ∷ [])
    ∷ control "NDPA-29" third_party
        "Processors provide sufficient guarantees of compliant, secure processing" 5
        ("third-party" ∷ [])
    ∷ control "NDPA-29(3)" third_party
        "Sub-processor engagement requires prior authorisation and equivalent obligations" 4
        ("third-party" ∷ [])
    ∷ []
