-- ===== src/Vendor/Tests.antt =====
-- Concrete runs of vendor-service.
use sc_tpcrs.Prelude.{◌+◌, ◌≡◌, refl, true, false, [], ok, err, one_of}
use sc_tpcrs.Prelude.Value.{str}
use sc_tpcrs.Jwt.{TokenPayload}
use sc_tpcrs.Audit.{Hashing}
use sc_tpcrs.Vendor.Lifecycle.{states}
use sc_tpcrs.Vendor.Models.{Vendor, World, Call}
use sc_tpcrs.Vendor.Vendors.{VendorCreateRequest, create_vendor}
use sc_tpcrs.Vendor.Laws.{
  stage, IsAsked, IsGreatest, validate_transition_onward, questions_for_tier-IsAsked,
  compute_tier-IsGreatest,
}
use sc_tpcrs.Vendor.Invariant.{AreConsistent}
use sc_tpcrs.Vendor.Steps.{created, Reach, here, next, Reach-AreConsistent}

abbrev hashing : Hashing
hashing = record { sha256_hex = λ s. s; json_dumps = λ e. e.action }

abbrev officer : TokenPayload
officer = record { sub = "ada"; role = "admin"; mfa_verified = true; exp = 9000; iat = 0 }

abbrev call : Call
call = record { now = 5; now_text = "t5"; new_id = "v1" }

abbrev empty : World
empty = record {
  db = record { vendors = []; questionnaires = []; audit_log = [] };
  bus = record { connected = false; start_ok = true; send_ok = true; now = "t5"; sent = [] };
}

abbrev request : VendorCreateRequest
request = record {
  columns = [];
  data_access_scope = "Low";
  service_criticality = "High";
  integration_depth = "Medium";
}

abbrev nobody : Vendor
nobody = record {
  id = "";
  columns = [];
  data_access_scope = str "";
  service_criticality = str "";
  integration_depth = str "";
  overall_tier = "";
  onboarding_state = "";
  created_by = "";
}

abbrev made : Vendor × World
made = elim (create_vendor hashing call officer request empty) [
  | ok r ↦ r
  | err e ↦ (nobody, empty)
]

empty-AreConsistent : AreConsistent empty.db
empty-AreConsistent = record { vendors = tt; questionnaires = tt }

vendor_made : Reach hashing empty made.1
unfolding create_vendor sc_tpcrs.Jwt.require_role sc_tpcrs.Vendor.Tiering.compute_tier
    sc_tpcrs.Vendor.Tiering.order sc_tpcrs.Vendor.Tiering.reverse
vendor_made = next here (created call officer request made.0 refl)

Reach-AreConsistent_example : AreConsistent made.1.db
Reach-AreConsistent_example =
    Reach-AreConsistent hashing empty made.1 vendor_made empty-AreConsistent

compute_tier-IsGreatest_example : IsGreatest (str "Low") (str "High") (str "Medium") "High"
unfolding sc_tpcrs.Vendor.Tiering.compute_tier sc_tpcrs.Vendor.Tiering.order
    sc_tpcrs.Vendor.Tiering.reverse
compute_tier-IsGreatest_example =
    compute_tier-IsGreatest (str "Low") (str "High") (str "Medium") "High" refl

validate_transition_onward_example :
    (one_of "QUESTIONNAIRE_SENT" states ≡ true)
    × (stage "QUESTIONNAIRE_SENT" ≡ stage "INITIATED" + 1)
unfolding sc_tpcrs.Vendor.Lifecycle.validate_transition
    sc_tpcrs.Vendor.Lifecycle.allowed_transitions
validate_transition_onward_example =
    validate_transition_onward "INITIATED" "QUESTIONNAIRE_SENT" refl

questions_for_tier-IsAsked_example : IsAsked "Medium"
questions_for_tier-IsAsked_example = questions_for_tier-IsAsked "Medium" refl
