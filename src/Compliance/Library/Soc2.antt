-- ===== src/Compliance/Library/Soc2.antt =====
-- services/compliance-service/app/control_library/soc2.py: the Trust Services Criteria.
use sc_tpcrs.Prelude.{String, List, [], ◌∷◌, fstring, ℕ}
use sc_tpcrs.Compliance.Spec.{ControlSpec, framework_soc2}

abbrev cc : String
cc = "Common Criteria (Security)"

abbrev avail : String
avail = "Availability"

abbrev conf : String
conf = "Confidentiality"

abbrev pi : String
pi = "Processing Integrity"

abbrev priv : String
priv = "Privacy"

unfoldable control : String → String → String → ℕ → List String → ControlSpec
control reference domain title weight tags = record {
  control_id = fstring ("SOC2-" ∷ reference ∷ []);
  framework = framework_soc2;
  reference = reference;
  domain = domain;
  title = title;
  objective = fstring ("SOC 2 Trust Services Criteria " ∷ reference ∷ " -- " ∷ title ∷ "." ∷ []);
  weight = weight;
  tags = tags;
}

unfoldable pub controls : List ControlSpec
unfolding control
controls =
    control "CC1.1" cc "The entity demonstrates a commitment to integrity and ethical values" 3
      ("governance" ∷ [])
    ∷ control "CC1.2" cc "The board exercises oversight of internal control" 3 ("governance" ∷ [])
    ∷ control "CC1.3" cc "Management establishes structures, reporting lines and authorities" 3
        ("governance" ∷ [])
    ∷ control "CC1.4" cc
        "The entity demonstrates a commitment to attract, develop and retain competent people" 2
        ("hr" ∷ [])
    ∷ control "CC1.5" cc
        "The entity holds individuals accountable for internal control responsibilities" 3
        ("governance" ∷ [])
    ∷ control "CC2.1" cc "The entity obtains or generates relevant, quality information" 3
        ("governance" ∷ [])
    ∷ control "CC2.2" cc
        "The entity internally communicates information supporting internal control" 3
        ("governance" ∷ [])
    ∷ control "CC2.3" cc "The entity communicates with external parties on internal-control matters"
        3 ("third-party" ∷ [])
    ∷ control "CC3.1" cc "The entity specifies objectives to enable identification of risks" 3
        ("risk" ∷ [])
    ∷ control "CC3.2" cc "The entity identifies and analyzes risks to achieving its objectives" 4
        ("risk" ∷ [])
    ∷ control "CC3.3" cc "The entity considers the potential for fraud in assessing risks" 3
        ("risk" ∷ [])
    ∷ control "CC3.4" cc
        "The entity identifies and assesses changes that could impact internal control" 3
        ("risk" ∷ [])
    ∷ control "CC4.1" cc "The entity selects and performs ongoing and separate control evaluations"
        3 ("assurance" ∷ [])
    ∷ control "CC4.2" cc "The entity evaluates and communicates internal-control deficiencies" 3
        ("assurance" ∷ [])
    ∷ control "CC5.1" cc "The entity selects and develops control activities that mitigate risks" 3
        ("governance" ∷ [])
    ∷ control "CC5.2" cc "The entity selects and develops general controls over technology" 3
        ("governance" ∷ [])
    ∷ control "CC5.3" cc "The entity deploys control activities through policies and procedures" 3
        ("governance" ∷ [])
    ∷ control "CC6.1" cc
        "Logical access security software and infrastructure protect information assets" 5
        ("access-control" ∷ [])
    ∷ control "CC6.2" cc
        "New internal and external users are registered and authorized before access" 4
        ("access-control" ∷ [])
    ∷ control "CC6.3" cc
        "Access to data and software is authorized, modified and removed based on roles" 4
        ("access-control" ∷ [])
    ∷ control "CC6.4" cc "Physical access to facilities and protected assets is restricted" 3
        ("physical" ∷ [])
    ∷ control "CC6.5" cc
        "The entity discontinues logical/physical protections only after data disposal" 3
        ("data-protection" ∷ [])
    ∷ control "CC6.6" cc
        "The entity implements controls to protect against threats from outside its boundaries" 4
        ("network" ∷ [])
    ∷ control "CC6.7" cc
        "The entity restricts the transmission, movement and removal of information" 4
        ("data-protection" ∷ [])
    ∷ control "CC6.8" cc "The entity implements controls to prevent or detect unauthorized software"
        3 ("malware" ∷ [])
    ∷ control "CC7.1" cc
        "The entity uses detection and monitoring to identify configuration changes and vulnerabilities"
        4 ("vuln-mgmt" ∷ "monitoring" ∷ [])
    ∷ control "CC7.2" cc
        "The entity monitors system components for anomalies indicative of malicious acts" 4
        ("monitoring" ∷ [])
    ∷ control "CC7.3" cc
        "The entity evaluates security events to determine whether they are incidents" 4
        ("incident" ∷ [])
    ∷ control "CC7.4" cc
        "The entity responds to identified security incidents with a defined program" 4
        ("incident" ∷ [])
    ∷ control "CC7.5" cc "The entity identifies, develops and implements recovery from incidents" 3
        ("incident" ∷ "resilience" ∷ [])
    ∷ control "CC8.1" cc
        "The entity authorizes, designs, tests and approves changes before implementation" 4
        ("secure-dev" ∷ [])
    ∷ control "CC9.1" cc "The entity identifies, selects and develops risk-mitigation activities" 3
        ("risk" ∷ [])
    ∷ control "CC9.2" cc
        "The entity assesses and manages risks associated with vendors and business partners" 5
        ("third-party" ∷ [])
    ∷ control "A1.1" avail
        "The entity maintains and monitors capacity to meet availability commitments" 3
        ("resilience" ∷ [])
    ∷ control "A1.2" avail
        "The entity provides environmental protections, backup and recovery infrastructure" 4
        ("resilience" ∷ [])
    ∷ control "A1.3" avail "The entity tests recovery-plan procedures supporting system recovery" 3
        ("resilience" ∷ [])
    ∷ control "C1.1" conf
        "The entity identifies and maintains confidential information to meet its commitments" 4
        ("data-protection" ∷ [])
    ∷ control "C1.2" conf "The entity disposes of confidential information to meet its commitments"
        3 ("data-protection" ∷ [])
    ∷ control "PI1.1" pi "The entity obtains and uses relevant, quality information over processing"
        2 ("data-integrity" ∷ [])
    ∷ control "PI1.2" pi "System inputs are complete and accurate over processing" 3
        ("data-integrity" ∷ [])
    ∷ control "PI1.3" pi "System processing is complete, valid, accurate, timely and authorized" 3
        ("data-integrity" ∷ [])
    ∷ control "PI1.4" pi "System output is complete, accurate and distributed to meet commitments" 2
        ("data-integrity" ∷ [])
    ∷ control "PI1.5" pi "The entity stores inputs and outputs completely, accurately and timely" 2
        ("data-integrity" ∷ [])
    ∷ control "P1.1" priv "Notice about privacy practices is provided to data subjects" 3
        ("privacy" ∷ [])
    ∷ control "P2.1" priv
        "Choice and consent regarding personal information are communicated and obtained" 4
        ("privacy" ∷ [])
    ∷ control "P3.1" priv
        "Personal information is collected consistently with the entity's objectives" 3
        ("privacy" ∷ [])
    ∷ control "P3.2" priv
        "Explicit consent for sensitive personal information is obtained where required" 4
        ("privacy" ∷ [])
    ∷ control "P4.1" priv "Personal information is used, retained and disposed of per commitments" 4
        ("privacy" ∷ "data-protection" ∷ [])
    ∷ control "P5.1" priv
        "Data subjects can access their personal information for review and update" 3
        ("privacy" ∷ [])
    ∷ control "P6.1" priv
        "Personal information is disclosed to third parties only with consent and per commitments" 4
        ("privacy" ∷ "third-party" ∷ [])
    ∷ control "P7.1" priv
        "The entity collects and maintains accurate, complete and relevant personal information" 2
        ("privacy" ∷ [])
    ∷ control "P8.1" priv "A process addresses privacy-related inquiries, complaints and disputes" 3
        ("privacy" ∷ [])
    ∷ []
