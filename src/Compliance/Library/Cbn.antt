-- ===== src/Compliance/Library/Cbn.antt =====
-- services/compliance-service/app/control_library/cbn.py: the framework of the Central Bank of Nigeria.
use sc_tpcrs.Prelude.{String, List, [], ◌∷◌, fstring, ℕ}
use sc_tpcrs.Compliance.Spec.{ControlSpec, framework_cbn}

abbrev gov : String
gov = "Governance and oversight"

abbrev risk : String
risk = "Cyber risk management"

abbrev resilience : String
resilience = "Resilience and continuity"

abbrev ops : String
ops = "Cybersecurity operations"

abbrev cti : String
cti = "Threat intelligence and metrics"

abbrev compliance : String
compliance = "Compliance and assurance"

unfoldable control : String → String → String → ℕ → List String → ControlSpec
control reference domain title weight tags = record {
  control_id = fstring ("CBN-" ∷ reference ∷ []);
  framework = framework_cbn;
  reference = reference;
  domain = domain;
  title = title;
  objective = fstring ("CBN Cybersecurity Framework (" ∷ reference ∷ ") -- " ∷ title ∷ "." ∷ []);
  weight = weight;
  tags = tags;
}

unfoldable pub controls : List ControlSpec
unfolding control
controls =
    control "2.1" gov
      "The board and senior management provide cybersecurity oversight and direction" 4
      ("governance" ∷ [])
    ∷ control "2.2" gov
        "A board-approved cybersecurity strategy and policy are established and reviewed" 4
        ("governance" ∷ [])
    ∷ control "2.3" gov
        "A Chief Information Security Officer (CISO) is appointed with a clear mandate" 4
        ("governance" ∷ [])
    ∷ control "2.4" gov "Cybersecurity roles, responsibilities and reporting lines are defined" 3
        ("governance" ∷ [])
    ∷ control "2.5" gov "A cybersecurity budget and adequate resources are allocated" 2
        ("governance" ∷ [])
    ∷ control "3.1" risk
        "A cybersecurity risk-management framework identifies, assesses and treats cyber risk" 5
        ("risk" ∷ [])
    ∷ control "3.2" risk "Information assets are identified, classified and assigned risk owners" 4
        ("asset-mgmt" ∷ "risk" ∷ [])
    ∷ control "3.3" risk "Third-party and outsourcing cyber risks are assessed and managed" 5
        ("third-party" ∷ "risk" ∷ [])
    ∷ control "3.4" risk "A cyber-risk appetite and tolerance are defined and monitored" 3
        ("risk" ∷ [])
    ∷ control "3.5" risk
        "Risk assessments are performed before deploying new products, channels or technologies" 3
        ("risk" ∷ [])
    ∷ control "4.1" ops
        "Preventive controls (access management, hardening, segmentation) are implemented" 5
        ("access-control" ∷ "hardening" ∷ [])
    ∷ control "4.2" ops
        "Multi-factor authentication protects critical systems and privileged access" 5
        ("access-control" ∷ "mfa" ∷ [])
    ∷ control "4.3" ops "A vulnerability- and patch-management programme is operated" 5
        ("vuln-mgmt" ∷ [])
    ∷ control "4.4" ops "Secure configuration and change-management processes are enforced" 3
        ("hardening" ∷ [])
    ∷ control "4.5" ops "Data protection and encryption controls safeguard sensitive data" 5
        ("crypto" ∷ "data-protection" ∷ [])
    ∷ control "4.6" ops "Security event logging and continuous monitoring (SOC/SIEM) are in place" 4
        ("monitoring" ∷ [])
    ∷ control "4.7" ops "Anti-malware and email/endpoint protection controls are deployed" 3
        ("malware" ∷ [])
    ∷ control "5.1" resilience "A cyber incident-response plan is documented, tested and maintained"
        5 ("incident" ∷ [])
    ∷ control "5.2" resilience
        "Cybersecurity incidents are reported to the CBN within the mandated timeline" 5
        ("incident" ∷ [])
    ∷ control "5.3" resilience
        "Business continuity and disaster-recovery plans address cyber disruption" 4
        ("resilience" ∷ [])
    ∷ control "5.4" resilience "Backups are maintained, protected and periodically restore-tested" 4
        ("resilience" ∷ [])
    ∷ control "6.1" cti "Cyber threat intelligence is gathered and acted upon" 3
        ("threat-intel" ∷ [])
    ∷ control "6.2" cti "The entity participates in sector threat-information sharing" 2
        ("threat-intel" ∷ [])
    ∷ control "6.3" cti "Cybersecurity metrics and KRIs are reported to management and the board" 3
        ("governance" ∷ [])
    ∷ control "6.4" cti "Regular security awareness and phishing-simulation training is conducted" 3
        ("awareness" ∷ [])
    ∷ control "7.1" compliance
        "Periodic cybersecurity self-assessment and maturity assessment are performed" 3
        ("assurance" ∷ [])
    ∷ control "7.2" compliance
        "Independent cybersecurity audits and penetration tests are conducted" 4
        ("assurance" ∷ "vuln-mgmt" ∷ [])
    ∷ control "7.3" compliance
        "A compliance return on the framework is rendered to the CBN as required" 3
        ("compliance" ∷ [])
    ∷ control "7.4" compliance "Regulatory findings and remediation actions are tracked to closure"
        3 ("compliance" ∷ [])
    ∷ []
