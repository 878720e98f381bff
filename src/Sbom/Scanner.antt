-- ===== src/Sbom/Scanner.antt =====
-- services/sbom-service/app/services/cve_scanner.py. The adapters come from outside: the records of NVD for a
-- component, and what KEV has of a vulnerability.
use sc_tpcrs.Prelude.{
  String, Bool, true, false, ◌&&◌, Option, none, some, List, [], ◌∷◌, contains_text, Result, ok,
  ◌>>=◌, or_else, if◌then◌else◌,
}
use sc_tpcrs.Prelude.Floats.{Floats}
use sc_tpcrs.Sbom.Purl.{NormalisedComponent}

pub record CveRecord (F : Type 0) : Type 0 where
  pub cve_id : String
  pub description : Option String
  pub cvss_score : Option F
  pub cvss_vector : Option String

-- KEV's entry has one flag that is read; none is a vulnerability that is not listed.
pub record Feeds (F : Type 0) : Type 0 where
  pub nvd : String → String → String → Result (List (CveRecord F))
  pub kev : String → String → String → Result (Option Bool)

pub record ScannedVulnerability (F : Type 0) : Type 0 where
  pub cve_id : String
  pub description : Option String
  pub cvss_score : Option F
  pub cvss_vector : Option String
  pub severity : String
  pub kev_flag : Bool
  pub known_ransomware : Bool
  pub ssvc_priority : String

pub record ScannedComponent (F : Type 0) : Type 0 where
  pub component : NormalisedComponent
  pub vulnerabilities : List (ScannedVulnerability F)

unfoldable pub automatable : Option String → Bool
automatable none = false
automatable (some vector) = contains_text vector "AV:N" && contains_text vector "AC:L"

module _ (fl : Floats) where
  open fl use {F, literal, lt, le}

  unfoldable pub severity_band : Option F → String
  severity_band none = "None"
  severity_band (some cvss) =
      if le (literal "9.0") cvss
      then "Critical"
      else if le (literal "7.0") cvss
      then "High"
      else if le (literal "4.0") cvss
      then "Medium"
      else if lt (literal "0.0") cvss
      then "Low"
      else "None"

  unfoldable pub ssvc_priority : Option F → Option String → Bool → String
  unfolding automatable
  ssvc_priority cvss cvss_vector is_kev =
      let high_impact = le (literal "7.0") (or_else cvss (literal "0.0")) in
      let automatic = automatable cvss_vector in
      if is_kev
      then if automatic && high_impact then "Act" else "Attend"
      else if automatic && high_impact
      then "Track*"
      else "Track"

  -- One round of the loop of `scan_component`.
  unfoldable pub scanned_vulnerability : CveRecord F → Option Bool → ScannedVulnerability F
  unfolding severity_band ssvc_priority
  scanned_vulnerability cve listed =
      let is_kev : Bool = elim listed [ none ↦ false | some _ ↦ true ] in
      record {
        cve_id = cve.cve_id;
        description = cve.description;
        cvss_score = cve.cvss_score;
        cvss_vector = cve.cvss_vector;
        severity = severity_band cve.cvss_score;
        kev_flag = is_kev;
        known_ransomware = or_else listed false;
        ssvc_priority = ssvc_priority cve.cvss_score cve.cvss_vector is_kev;
      }

  unfoldable pub scan_cves :
      Feeds F → NormalisedComponent → List (CveRecord F) → Result (List (ScannedVulnerability F))
  unfolding scanned_vulnerability
  scan_cves feeds component [] = ok []
  scan_cves feeds component (cve ∷ cves) = do
    listed ← feeds.kev cve.cve_id component.name component.version
    rest ← scan_cves feeds component cves
    ok (scanned_vulnerability cve listed ∷ rest)

  unfoldable pub scan_component : Feeds F → NormalisedComponent → Result (ScannedComponent F)
  unfolding scan_cves
  scan_component feeds component = do
    cves ← feeds.nvd component.name component.version component.ecosystem
    vulns ← scan_cves feeds component cves
    ok (record { component = component; vulnerabilities = vulns })

  unfoldable pub scan_components :
      Feeds F → List NormalisedComponent → Result (List (ScannedComponent F))
  scan_components feeds [] = ok []
  scan_components feeds (c ∷ cs) = do
    scanned ← scan_component feeds c
    rest ← scan_components feeds cs
    ok (scanned ∷ rest)
