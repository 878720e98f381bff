-- ===== src/Compliance/Library/Iso27001.antt =====
-- services/compliance-service/app/control_library/iso27001.py: Annex A of ISO/IEC 27001:2022.
use sc_tpcrs.Prelude.{String, List, [], ◌∷◌, fstring, ℕ}
use sc_tpcrs.Compliance.Spec.{ControlSpec, framework_iso_27001}

abbrev org : String
org = "Organizational controls (A.5)"

abbrev people : String
people = "People controls (A.6)"

abbrev physical : String
physical = "Physical controls (A.7)"

abbrev tech : String
tech = "Technological controls (A.8)"

unfoldable control : String → String → String → ℕ → List String → ControlSpec
control reference domain title weight tags = record {
  control_id = fstring ("ISO27001-" ∷ reference ∷ []);
  framework = framework_iso_27001;
  reference = fstring ("A." ∷ reference ∷ []);
  domain = domain;
  title = title;
  objective = fstring ("ISO/IEC 27001:2022 Annex A." ∷ reference ∷ " -- " ∷ title ∷ "." ∷ []);
  weight = weight;
  tags = tags;
}

unfoldable pub controls : List ControlSpec
unfolding control
controls =
    control "5.1" org "Policies for information security" 4 ("governance" ∷ [])
    ∷ control "5.2" org "Information security roles and responsibilities" 4 ("governance" ∷ [])
    ∷ control "5.3" org "Segregation of duties" 3 []
    ∷ control "5.4" org "Management responsibilities" 3 ("governance" ∷ [])
    ∷ control "5.5" org "Contact with authorities" 2 []
    ∷ control "5.6" org "Contact with special interest groups" 2 []
    ∷ control "5.7" org "Threat intelligence" 4 ("threat-intel" ∷ [])
    ∷ control "5.8" org "Information security in project management" 3 []
    ∷ control "5.9" org "Inventory of information and other associated assets" 3 ("asset-mgmt" ∷ [])
    ∷ control "5.10" org "Acceptable use of information and other associated assets" 3
        ("asset-mgmt" ∷ [])
    ∷ control "5.11" org "Return of assets" 2 ("asset-mgmt" ∷ [])
    ∷ control "5.12" org "Classification of information" 4 ("data-protection" ∷ [])
    ∷ control "5.13" org "Labelling of information" 3 ("data-protection" ∷ [])
    ∷ control "5.14" org "Information transfer" 3 ("data-protection" ∷ [])
    ∷ control "5.15" org "Access control" 5 ("access-control" ∷ [])
    ∷ control "5.16" org "Identity management" 4 ("access-control" ∷ [])
    ∷ control "5.17" org "Authentication information" 5 ("access-control" ∷ [])
    ∷ control "5.18" org "Access rights" 4 ("access-control" ∷ [])
    ∷ control "5.19" org "Information security in supplier relationships" 5 ("third-party" ∷ [])
    ∷ control "5.20" org "Addressing information security within supplier agreements" 5
        ("third-party" ∷ [])
    ∷ control "5.21" org "Managing information security in the ICT supply chain" 5
        ("third-party" ∷ "supply-chain" ∷ [])
    ∷ control "5.22" org "Monitoring, review and change management of supplier services" 4
        ("third-party" ∷ [])
    ∷ control "5.23" org "Information security for use of cloud services" 4 ("cloud" ∷ [])
    ∷ control "5.24" org "Information security incident management planning and preparation" 4
        ("incident" ∷ [])
    ∷ control "5.25" org "Assessment and decision on information security events" 3
        ("incident" ∷ [])
    ∷ control "5.26" org "Response to information security incidents" 4 ("incident" ∷ [])
    ∷ control "5.27" org "Learning from information security incidents" 3 ("incident" ∷ [])
    ∷ control "5.28" org "Collection of evidence" 3 ("incident" ∷ [])
    ∷ control "5.29" org "Information security during disruption" 3 ("resilience" ∷ [])
    ∷ control "5.30" org "ICT readiness for business continuity" 4 ("resilience" ∷ [])
    ∷ control "5.31" org "Legal, statutory, regulatory and contractual requirements" 4
        ("compliance" ∷ [])
    ∷ control "5.32" org "Intellectual property rights" 2 ("compliance" ∷ [])
    ∷ control "5.33" org "Protection of records" 3 ("data-protection" ∷ [])
    ∷ control "5.34" org "Privacy and protection of PII" 5 ("privacy" ∷ "data-protection" ∷ [])
    ∷ control "5.35" org "Independent review of information security" 3 ("assurance" ∷ [])
    ∷ control "5.36" org "Compliance with policies, rules and standards for information security" 3
        ("compliance" ∷ [])
    ∷ control "5.37" org "Documented operating procedures" 2 []
    ∷ control "6.1" people "Screening" 3 ("hr" ∷ [])
    ∷ control "6.2" people "Terms and conditions of employment" 2 ("hr" ∷ [])
    ∷ control "6.3" people "Information security awareness, education and training" 4
        ("hr" ∷ "awareness" ∷ [])
    ∷ control "6.4" people "Disciplinary process" 2 ("hr" ∷ [])
    ∷ control "6.5" people "Responsibilities after termination or change of employment" 3
        ("hr" ∷ [])
    ∷ control "6.6" people "Confidentiality or non-disclosure agreements" 3 ("hr" ∷ [])
    ∷ control "6.7" people "Remote working" 3 ("remote" ∷ [])
    ∷ control "6.8" people "Information security event reporting" 3 ("incident" ∷ [])
    ∷ control "7.1" physical "Physical security perimeters" 3 ("physical" ∷ [])
    ∷ control "7.2" physical "Physical entry" 3 ("physical" ∷ [])
    ∷ control "7.3" physical "Securing offices, rooms and facilities" 2 ("physical" ∷ [])
    ∷ control "7.4" physical "Physical security monitoring" 3 ("physical" ∷ [])
    ∷ control "7.5" physical "Protecting against physical and environmental threats" 2
        ("physical" ∷ [])
    ∷ control "7.6" physical "Working in secure areas" 2 ("physical" ∷ [])
    ∷ control "7.7" physical "Clear desk and clear screen" 2 ("physical" ∷ [])
    ∷ control "7.8" physical "Equipment siting and protection" 2 ("physical" ∷ [])
    ∷ control "7.9" physical "Security of assets off-premises" 3 ("physical" ∷ "asset-mgmt" ∷ [])
    ∷ control "7.10" physical "Storage media" 3 ("physical" ∷ "data-protection" ∷ [])
    ∷ control "7.11" physical "Supporting utilities" 2 ("physical" ∷ [])
    ∷ control "7.12" physical "Cabling security" 2 ("physical" ∷ [])
    ∷ control "7.13" physical "Equipment maintenance" 2 ("physical" ∷ [])
    ∷ control "7.14" physical "Secure disposal or re-use of equipment" 3
        ("physical" ∷ "data-protection" ∷ [])
    ∷ control "8.1" tech "User endpoint devices" 3 ("endpoint" ∷ [])
    ∷ control "8.2" tech "Privileged access rights" 5 ("access-control" ∷ [])
    ∷ control "8.3" tech "Information access restriction" 4 ("access-control" ∷ [])
    ∷ control "8.4" tech "Access to source code" 3 ("secure-dev" ∷ [])
    ∷ control "8.5" tech "Secure authentication" 5 ("access-control" ∷ [])
    ∷ control "8.6" tech "Capacity management" 2 []
    ∷ control "8.7" tech "Protection against malware" 4 ("malware" ∷ [])
    ∷ control "8.8" tech "Management of technical vulnerabilities" 5 ("vuln-mgmt" ∷ [])
    ∷ control "8.9" tech "Configuration management" 3 ("hardening" ∷ [])
    ∷ control "8.10" tech "Information deletion" 3 ("data-protection" ∷ [])
    ∷ control "8.11" tech "Data masking" 3 ("data-protection" ∷ [])
    ∷ control "8.12" tech "Data leakage prevention" 4 ("data-protection" ∷ [])
    ∷ control "8.13" tech "Information backup" 4 ("resilience" ∷ [])
    ∷ control "8.14" tech "Redundancy of information processing facilities" 3 ("resilience" ∷ [])
    ∷ control "8.15" tech "Logging" 4 ("monitoring" ∷ [])
    ∷ control "8.16" tech "Monitoring activities" 4 ("monitoring" ∷ [])
    ∷ control "8.17" tech "Clock synchronization" 2 ("monitoring" ∷ [])
    ∷ control "8.18" tech "Use of privileged utility programs" 3 ("access-control" ∷ [])
    ∷ control "8.19" tech "Installation of software on operational systems" 3 ("hardening" ∷ [])
    ∷ control "8.20" tech "Networks security" 4 ("network" ∷ [])
    ∷ control "8.21" tech "Security of network services" 3 ("network" ∷ [])
    ∷ control "8.22" tech "Segregation of networks" 3 ("network" ∷ [])
    ∷ control "8.23" tech "Web filtering" 2 ("network" ∷ [])
    ∷ control "8.24" tech "Use of cryptography" 5 ("crypto" ∷ [])
    ∷ control "8.25" tech "Secure development life cycle" 4 ("secure-dev" ∷ [])
    ∷ control "8.26" tech "Application security requirements" 4 ("secure-dev" ∷ [])
    ∷ control "8.27" tech "Secure system architecture and engineering principles" 3
        ("secure-dev" ∷ [])
    ∷ control "8.28" tech "Secure coding" 4 ("secure-dev" ∷ [])
    ∷ control "8.29" tech "Security testing in development and acceptance" 4 ("secure-dev" ∷ [])
    ∷ control "8.30" tech "Outsourced development" 3 ("secure-dev" ∷ "third-party" ∷ [])
    ∷ control "8.31" tech "Separation of development, test and production environments" 3
        ("secure-dev" ∷ [])
    ∷ control "8.32" tech "Change management" 3 ("secure-dev" ∷ [])
    ∷ control "8.33" tech "Test information" 2 ("secure-dev" ∷ [])
    ∷ control "8.34" tech "Protection of information systems during audit testing" 2
        ("assurance" ∷ [])
    ∷ []
