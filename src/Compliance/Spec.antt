-- ===== src/Compliance/Spec.antt =====
-- `ControlSpec` and the labels of the frameworks of services/compliance-service/app/control_library/__init__.py.
use sc_tpcrs.Prelude.{ℕ, String, List, [], ◌∷◌}

pub record ControlSpec : Type 0 where
  pub control_id : String
  pub framework : String
  pub reference : String
  pub domain : String
  pub title : String
  pub objective : String
  pub weight : ℕ
  pub tags : List String

abbrev pub framework_iso_27001 : String
framework_iso_27001 = "ISO 27001:2022"

abbrev pub framework_pci_dss : String
framework_pci_dss = "PCI DSS v4.0"

abbrev pub framework_soc2 : String
framework_soc2 = "SOC 2"

abbrev pub framework_ndpr : String
framework_ndpr = "NDPR/NDPA"

abbrev pub framework_cbn : String
framework_cbn = "CBN Cybersecurity Framework"

abbrev pub all_frameworks : List String
all_frameworks =
    framework_iso_27001 ∷ framework_pci_dss ∷ framework_soc2 ∷ framework_ndpr ∷ framework_cbn ∷ []
