-- ===== src/Vendor/QuestionBank.antt =====
-- services/vendor-service/app/services/question_bank.py: the questions, by domain and rank, and those
-- that a vendor of a tier is asked. Scores are whole numbers: an answer scores 100, 50 or 0.
use sc_tpcrs.Prelude.{
  ℕ, ◌+◌, ◌%◌, String, Option, none, some, List, [], ◌∷◌, ◌==◌, leb, nat_eq, select, fstring,
  zero_padded, decimal, Result, ok, err, Error, if◌then◌else◌,
}

pub record Question : Type 0 where
  pub code : String
  pub domain : String
  pub rank : ℕ
  pub text : String

-- A domain of `DOMAINS` with its three texts of `_QUESTION_TEXT`.
pub record Domain : Type 0 where
  pub name : String
  pub first : String
  pub second : String
  pub third : String

abbrev pub domains : List Domain
domains =
    record {
      name = "Access Control and Identity Management";
      first = "Is multi-factor authentication enforced for all privileged accounts?";
      second = "Are user access rights reviewed at least quarterly?";
      third =
          "Is role-based access control (RBAC) enforced with documented least-privilege policies?";
    }
    ∷ record {
      name = "Data Protection and Encryption";
      first = "Is data encrypted in transit using TLS 1.2 or higher?";
      second = "Is data encrypted at rest using an industry-standard algorithm (e.g. AES-256)?";
      third = "Are encryption keys managed via a dedicated key management system (KMS/HSM)?";
    }
    ∷ record {
      name = "Network and Infrastructure Security";
      first = "Are firewalls configured to deny-by-default on all network segments?";
      second = "Is network traffic segmented between production and non-production environments?";
      third = "Are intrusion detection/prevention systems (IDS/IPS) deployed and monitored 24/7?";
    }
    ∷ record {
      name = "Application and Software Security";
      first =
          "Are all internet-facing applications scanned for vulnerabilities at least quarterly?";
      second = "Is a secure software development lifecycle (SSDLC) documented and followed?";
      third = "Are dependencies scanned for known vulnerabilities on every release?";
    }
    ∷ record {
      name = "Incident Response and Breach Notification";
      first = "Is there a documented, tested incident response plan?";
      second = "Are breach notification timelines to customers/regulators contractually defined?";
      third = "Is a 24/7 security operations capability (internal or outsourced) in place?";
    }
    ∷ record {
      name = "Business Continuity and Disaster Recovery";
      first = "Is there a documented business continuity / disaster recovery plan?";
      second = "Is the DR plan tested at least annually?";
      third = "Are recovery time/point objectives (RTO/RPO) formally defined for critical systems?";
    }
    ∷ record {
      name = "Physical and Environmental Security";
      first = "Are data centres protected by physical access controls (badges, biometrics, etc.)?";
      second = "Is physical access to sensitive areas logged and reviewed?";
      third = "Are environmental controls (fire suppression, redundant power/cooling) in place?";
    }
    ∷ record {
      name = "HR Security and Awareness";
      first = "Do employees undergo background checks appropriate to their role?";
      second = "Is annual security awareness training mandatory for all staff?";
      third = "Are access rights revoked within 24 hours of employee termination?";
    }
    ∷ record {
      name = "Third-Party and Subcontractor Risk Management";
      first = "Is there a documented process for assessing subcontractor security risk?";
      second = "Are subcontractors contractually bound to equivalent security obligations?";
      third = "Is a current inventory of all subcontractors with data access maintained?";
    }
    ∷ record {
      name = "Regulatory Compliance and Legal";
      first =
          "Is the organisation compliant with applicable data protection regulation (e.g. NDPA)?";
      second = "Are compliance obligations reviewed whenever regulations change?";
      third = "Is a data processing agreement (DPA) in place for all data processed on our behalf?";
    }
    ∷ record {
      name = "Asset and Configuration Management";
      first = "Is there a maintained inventory of all hardware and software assets?";
      second =
          "Are system configurations hardened against a documented baseline (e.g. CIS Benchmarks)?";
      third = "Is configuration drift detected and remediated automatically?";
    }
    ∷ record {
      name = "Security Governance and Risk Management";
      first = "Is there a named executive accountable for information security?";
      second = "Is a formal risk assessment conducted at least annually?";
      third = "Is the organisation certified against ISO 27001 or an equivalent framework?";
    }
    ∷ []

abbrev question : ℕ → Domain → ℕ → String → Question
question index d rank text = record {
  code = fstring (zero_padded 2 (index + 1) ∷ "-" ∷ decimal rank ∷ []);
  domain = d.name;
  rank = rank;
  text = text;
}

-- The loops of `_build_questions`, from a domain's index.
unfoldable pub build_questions : ℕ → List Domain → List Question
build_questions index [] = []
build_questions index (d ∷ ds) =
    question index d 1 d.first
    ∷ question index d 2 d.second
    ∷ question index d 3 d.third
    ∷ build_questions (index + 1) ds

unfoldable pub all_questions : List Question
unfolding build_questions
all_questions = build_questions 0 domains

-- `2 if index % 2 == 0 else 1` for the domain, by its index in `DOMAINS`.
unfoldable pub alternating : ℕ → List Domain → String → ℕ
alternating index [] domain = 0
alternating index (d ∷ ds) domain =
    let rest = alternating (index + 1) ds domain in
    if d.name == domain then (if nat_eq (index % 2) 0 then 2 else 1) else rest

-- `max_rank[domain]` of the tier, if the tier is known.
unfoldable pub max_rank : String → Option (String → ℕ)
unfolding alternating
max_rank tier =
    if tier == "Critical"
    then some (λ domain. 3)
    else if tier == "High"
    then some (λ domain. 2)
    else if tier == "Medium"
    then some (alternating 0 domains)
    else if tier == "Low"
    then some (λ domain. 1)
    else none

unfoldable pub questions_for_tier : String → Result (List Question)
unfolding max_rank all_questions
questions_for_tier tier = elim (max_rank tier) [
  | none ↦ err (Error.value_error (fstring ("Unknown tier: '" ∷ tier ∷ "'" ∷ [])))
  | some ranks ↦ ok (select (λ (q : Question). leb q.rank (ranks q.domain)) all_questions)
]

unfoldable pub score_for_answer : Option String → Result (Option ℕ)
score_for_answer none = ok none
score_for_answer (some answer) =
    if answer == "NA"
    then ok none
    else if answer == "YES"
    then ok (some 100)
    else if answer == "PARTIAL"
    then ok (some 50)
    else if answer == "NO"
    then ok (some 0)
    else err (Error.value_error (fstring ("Unknown answer value: '" ∷ answer ∷ "'" ∷ [])))
