-- ===== src/Gateway/Routing.antt =====
-- services/gateway/app/routing.py and the settings of config.py that it reads.
use Prim.Native.String.{slice}
use text.Mathlib.Text.{find?}
use sc_tpcrs.Prelude.{
  ℕ, String, Bool, Option, none, some, List, [], ◌∷◌, ◌==◌, one_of, starts_with, if◌then◌else◌,
  ◌||◌,
}

pub record Settings : Type 0 where
  pub auth_service_url : String
  pub vendor_service_url : String
  pub risk_service_url : String
  pub sbom_service_url : String
  pub compliance_service_url : String
  pub monitoring_service_url : String
  pub incident_service_url : String
  pub rate_limit_per_min : ℕ
  pub login_rate_limit_per_min : ℕ

-- `ROUTE_TABLE.get(prefix)`.
unfoldable pub route : Settings → String → Option String
route settings prefix =
    if prefix == "auth"
    then some settings.auth_service_url
    else if prefix == "vendors"
    then some settings.vendor_service_url
    else if prefix == "risk"
    then some settings.risk_service_url
    else if prefix == "sbom"
    then some settings.sbom_service_url
    else if prefix == "compliance"
    then some settings.compliance_service_url
    else if prefix == "monitoring"
    then some settings.monitoring_service_url
    else if prefix == "incidents"
    then some settings.incident_service_url
    else none

abbrev pub public_paths : List String
public_paths = "auth/login" ∷ "auth/mfa/verify" ∷ []

-- `path.split("/", 1)[0]`.
unfoldable pub prefix_of : String → String
prefix_of path = elim (find? path "/") [ none ↦ path | some k ↦ slice path 0 k ]

unfoldable pub resolve_upstream : Settings → String → Option (String × String)
unfolding route prefix_of
resolve_upstream settings path = elim (route settings (prefix_of path)) [
  | none ↦ none
  | some base ↦ some (base, prefix_of path)
]

unfoldable pub is_public : String → Bool
is_public path = one_of path public_paths || starts_with path "auth/dev/"
