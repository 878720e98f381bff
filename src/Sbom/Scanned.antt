-- ===== src/Sbom/Scanned.antt =====
-- What a scan of components finds in the feeds.
use sc_tpcrs.Prelude.{
  map, ap, ◌∙◌, if◌then◌else◌, ◌≡◌, refl, subst, inl, inr, Bool, true, false, Option, none, some,
  List, [], ◌∷◌, ◌==◌, or_else, ok, bind-ok, ok-injective, Bool-cases,
}
use sc_tpcrs.Prelude.Floats.{Floats}
use sc_tpcrs.Prelude.Matched.{Matched}
use sc_tpcrs.Sbom.Purl.{NormalisedComponent}
use sc_tpcrs.Sbom.Scanner.{
  CveRecord, Feeds, ScannedVulnerability, ScannedComponent, severity_band, scanned_vulnerability,
  scan_cves, scan_component, scan_components,
}

module _ (fl : Floats) where
  open fl use {F, literal, lt, le}

  -- A score of nine or more is critical.
  abbrev is_critical_score : Option F → Bool
  is_critical_score none = false
  is_critical_score (some cvss) = le (literal "9.0") cvss

  abbrev is_listed : Option Bool → Bool
  is_listed none = false
  is_listed (some ransomware) = true

  module _ (feeds : Feeds F) (c : NormalisedComponent) where
    -- The vulnerability is NVD's record, with what KEV has of it for the component.
    pub record IsVulnerability (cve : CveRecord F) (v : ScannedVulnerability F) : Type 0 where
      pub cve_id : v.cve_id ≡ cve.cve_id
      pub description : v.description ≡ cve.description
      pub cvss_score : v.cvss_score ≡ cve.cvss_score
      pub cvss_vector : v.cvss_vector ≡ cve.cvss_vector
      pub critical : (v.severity == "Critical") ≡ is_critical_score cve.cvss_score
      pub listed : Option Bool
      pub looked_up : feeds.kev cve.cve_id c.name c.version ≡ ok listed
      pub kev_flag : v.kev_flag ≡ is_listed listed
      pub known_ransomware : v.known_ransomware ≡ or_else listed false

    -- The component, with the vulnerabilities that NVD has of it, in their order.
    pub record IsScanned (s : ScannedComponent F) : Type 0 where
      pub component : s.component ≡ c
      pub cves : List (CveRecord F)
      pub fetched : feeds.nvd c.name c.version c.ecosystem ≡ ok cves
      pub found : Matched IsVulnerability cves s.vulnerabilities

    lesser :
        (high medium low : Bool)
        → ((if high then "High" else if medium then "Medium" else if low then "Low" else "None")
            == "Critical")
          ≡ false
    lesser true medium low = refl
    lesser false true low = refl
    lesser false false true = refl
    lesser false false false = refl

    severity_band-critical :
        (cvss : Option F) → (severity_band fl cvss == "Critical") ≡ is_critical_score cvss
    unfolding severity_band
    severity_band-critical none = refl
    severity_band-critical (some cvss) = elim (Bool-cases (le (literal "9.0") cvss)) [
      | inl critical ↦ rw critical refl
      | inr below ↦
          rw below
            (lesser (le (literal "7.0") cvss) (le (literal "4.0") cvss) (lt (literal "0.0") cvss))
    ]

    scanned_vulnerability-IsVulnerability :
        (cve : CveRecord F) (listed : Option Bool)
        → feeds.kev cve.cve_id c.name c.version ≡ ok listed
        → IsVulnerability cve (scanned_vulnerability fl cve listed)
    unfolding scanned_vulnerability
    scanned_vulnerability-IsVulnerability cve listed h = record {
      cve_id = refl;
      description = refl;
      cvss_score = refl;
      cvss_vector = refl;
      critical = severity_band-critical cve.cvss_score;
      listed = listed;
      looked_up = h;
      kev_flag = elim listed [ none ↦ refl | some r ↦ refl ];
      known_ransomware = refl;
    }

    scan_cves-Matched :
        (cves : List (CveRecord F)) (vs : List (ScannedVulnerability F))
        → scan_cves fl feeds c cves ≡ ok vs
        → Matched IsVulnerability cves vs
    unfolding scan_cves
    scan_cves-Matched [] vs h = subst (Matched IsVulnerability []) (ok-injective h) tt
    scan_cves-Matched (cve ∷ cves) vs h =
        let (listed, looked_up, h1) = bind-ok (feeds.kev cve.cve_id c.name c.version) h in
        let (rest, others, h2) = bind-ok (scan_cves fl feeds c cves) h1 in
        subst (Matched IsVulnerability (cve ∷ cves)) (ok-injective h2) (
          scanned_vulnerability-IsVulnerability cve listed looked_up,
          scan_cves-Matched cves rest others,
        )

    scan_component-IsScanned :
        (s : ScannedComponent F) → scan_component fl feeds c ≡ ok s → IsScanned s
    unfolding scan_component
    scan_component-IsScanned s h =
        let (cves, fetched, h1) = bind-ok (feeds.nvd c.name c.version c.ecosystem) h in
        let (vulns, scanned, h2) = bind-ok (scan_cves fl feeds c cves) h1 in
        subst IsScanned (ok-injective h2) (record {
          component = refl;
          cves = cves;
          fetched = fetched;
          found = scan_cves-Matched cves vulns scanned;
        })

  pub scan_components-Matched :
      (feeds : Feeds F) (cs : List NormalisedComponent) (scanned : List (ScannedComponent F))
      → scan_components fl feeds cs ≡ ok scanned
      → Matched (IsScanned feeds) cs scanned
  unfolding scan_components
  scan_components-Matched feeds [] scanned h =
      subst (Matched (IsScanned feeds) []) (ok-injective h) tt
  scan_components-Matched feeds (c ∷ cs) scanned h =
      let (s, one, h1) = bind-ok (scan_component fl feeds c) h in
      let (rest, others, h2) = bind-ok (scan_components fl feeds cs) h1 in
      subst (Matched (IsScanned feeds) (c ∷ cs)) (ok-injective h2)
        (scan_component-IsScanned feeds c s one, scan_components-Matched feeds cs rest others)

  -- The components of a scan are those that were scanned.
  pub components_of_scan :
      (feeds : Feeds F) (cs : List NormalisedComponent) (scanned : List (ScannedComponent F))
      → Matched (IsScanned feeds) cs scanned
      → map (λ (s : ScannedComponent F). s.component) scanned ≡ cs
  components_of_scan feeds [] [] h = refl
  components_of_scan feeds [] (s ∷ scanned) h = absurd h
  components_of_scan feeds (c ∷ cs) [] h = absurd h
  components_of_scan feeds (c ∷ cs) (s ∷ scanned) h =
      ap (λ x. x ∷ map (λ (s : ScannedComponent F). s.component) scanned) (h.0).component
      ∙ ap (λ l. c ∷ l) (components_of_scan feeds cs scanned h.1)
