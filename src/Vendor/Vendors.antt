-- ===== src/Vendor/Vendors.antt =====
-- services/vendor-service/app/routers/vendors.py and services/events.py. The requests have passed their
-- schemas: an update names columns of the request only, with the values that were set.
use sc_tpcrs.Prelude.{
  ℕ, ◌-◌, ◌*◌, String, Bool, true, false, ◌&&◌, ◌||◌, Option, none, some, List, [], ◌∷◌, ◌++◌, ◌==◌,
  length, take, drop, select, find_first, update_where, fstring, one_of, Result, ok, Error, ◌>>=◌,
  or_raise, on_value_error, if◌then◌else◌,
}
use mathlib.Core.List.{reverse}
use sc_tpcrs.Prelude.Value.{Value, str, null, Dict, Details, Detail, get_or, to_text, as_details}
use sc_tpcrs.Jwt.{TokenPayload, require_role}
use sc_tpcrs.Kafka.{Bus, publish, vendor_lifecycle_events}
use sc_tpcrs.Audit.{Hashing, record_audit_event}
use sc_tpcrs.Vendor.Lifecycle.{validate_transition}
use sc_tpcrs.Vendor.Tiering.{compute_tier}
use sc_tpcrs.Vendor.Models.{Vendor, Db, World, Call}

abbrev pub lifecycle_payload : String → String → String → String → String → Dict
lifecycle_payload vendor_id from_state to_state tier actor =
    ("vendor_id", str vendor_id)
    ∷ ("from_state", str from_state)
    ∷ ("to_state", str to_state)
    ∷ ("tier", str tier)
    ∷ ("actor", str actor)
    ∷ []

unfoldable pub publish_lifecycle_event :
    String → String → String → String → String → Bus → Bool × Bus
publish_lifecycle_event vendor_id from_state to_state tier actor bus =
    publish vendor_lifecycle_events "vendor.lifecycle.transition"
      (lifecycle_payload vendor_id from_state to_state tier actor) (some vendor_id) bus

abbrev pub not_found : Error
not_found = Error.http 404 "Vendor not found"

unfoldable pub find_vendor : String → Db → Option Vendor
find_vendor vendor_id db = find_first (λ (v : Vendor). v.id == vendor_id) db.vendors

unfoldable pub get_vendor_or_404 : String → Db → Result Vendor
get_vendor_or_404 vendor_id db = or_raise (find_vendor vendor_id db) not_found

-- The row of the vendor is the object that the handler changed.
unfoldable pub save_vendor : Vendor → Db → Db
save_vendor vendor db = record db {
  vendors = update_where (λ (v : Vendor). v.id == vendor.id) (λ _. vendor) db.vendors;
}

unfoldable pub audit : Hashing → Call → String → String → String → Details → Db → Db
audit hashing call actor action vendor_id details db = record db {
  audit_log =
      record_audit_event hashing actor action (fstring ("vendor:" ∷ vendor_id ∷ [])) (some details)
        call.now_text db.audit_log;
}

-- The columns that the requests share with the row, and the three dimensions.
pub record VendorCreateRequest : Type 0 where
  pub columns : Dict
  pub data_access_scope : String
  pub service_criticality : String
  pub integration_depth : String

abbrev pub editors : List String
editors = "risk_officer" ∷ "admin" ∷ []

unfoldable pub create_vendor :
    Hashing → Call → TokenPayload → VendorCreateRequest → World → Result (Vendor × World)
create_vendor hashing call user payload w = do
  writer ← require_role editors user
  tier ←
      compute_tier (str payload.data_access_scope) (str payload.service_criticality)
        (str payload.integration_depth)
  let vendor : Vendor = record {
    id = call.new_id;
    columns = payload.columns;
    data_access_scope = str payload.data_access_scope;
    service_criticality = str payload.service_criticality;
    integration_depth = str payload.integration_depth;
    overall_tier = tier;
    onboarding_state = "INITIATED";
    created_by = writer.sub;
  }
  let db' : Db =
      audit hashing call writer.sub "VENDOR_CREATED" vendor.id
        (("tier", Detail.value (str tier)) ∷ [])
        (record w.db { vendors = w.db.vendors ++ vendor ∷ [] })
  let (_, bus') = publish_lifecycle_event vendor.id "" "INITIATED" tier writer.sub w.bus
  ok (vendor, record w { db = db'; bus = bus' })

-- A filter that is missing or empty does not restrict.
abbrev filtered : Option String → (String → Bool) → Bool
filtered none test = true
filtered (some s) test = s == "" || test s

pub record VendorListResponse : Type 0 where
  pub items : List Vendor
  pub page : ℕ
  pub size : ℕ
  pub total : ℕ

-- `ilike name search` is SQL's `name ILIKE '%search%'`. The newest vendor comes first.
unfoldable pub list_vendors :
    (String → String → Bool)
    → Option String
    → Option String
    → Option String
    → ℕ
    → ℕ
    → Db
    → VendorListResponse
list_vendors ilike tier state search page size db =
    let matching =
      select
        (λ (v : Vendor).
          filtered tier (λ s. v.overall_tier == s)
          && (filtered state (λ s. v.onboarding_state == s)
              && filtered search (λ s. ilike (to_text (get_or v.columns "name" null)) s)))
        db.vendors in
    record {
      items = take size (drop ((page - 1) * size) (reverse matching));
      page = page;
      size = size;
      total = length matching;
    }

unfoldable pub get_vendor : String → Db → Result Vendor
unfolding get_vendor_or_404
get_vendor vendor_id db = get_vendor_or_404 vendor_id db

abbrev set_key : String → Value → Dict → Dict
set_key field value [] = (field, value) ∷ []
set_key field value ((k, v) ∷ d) =
    let rest = set_key field value d in if k == field then (k, value) ∷ d else (k, v) ∷ rest

-- `setattr(vendor, field, value)`.
unfoldable pub set_field : String → Value → Vendor → Vendor
set_field field value vendor =
    if field == "data_access_scope"
    then record vendor { data_access_scope = value }
    else if field == "service_criticality"
    then record vendor { service_criticality = value }
    else if field == "integration_depth"
    then record vendor { integration_depth = value }
    else record vendor { columns = set_key field value vendor.columns }

unfoldable pub set_fields : Dict → Vendor → Vendor
set_fields [] vendor = vendor
set_fields ((field, value) ∷ updates) vendor = set_fields updates (set_field field value vendor)

-- `any(k in updates for k in (...))`.
abbrev pub is_dimension : String → Bool
is_dimension field =
    one_of field ("data_access_scope" ∷ "service_criticality" ∷ "integration_depth" ∷ [])

abbrev pub has_dimension : Dict → Bool
has_dimension [] = false
has_dimension ((field, value) ∷ updates) = is_dimension field || has_dimension updates

-- The recomputation of the tier, which raises a `ValueError` that nothing catches.
unfoldable pub retier : Dict → Vendor → Result Vendor
retier updates vendor =
    if has_dimension updates
    then compute_tier vendor.data_access_scope vendor.service_criticality vendor.integration_depth
      >>= (λ tier. ok (record vendor { overall_tier = tier }))
    else ok vendor

unfoldable pub update_vendor :
    Hashing → Call → TokenPayload → String → Dict → World → Result (Vendor × World)
update_vendor hashing call user vendor_id updates w = do
  writer ← require_role editors user
  vendor ← get_vendor_or_404 vendor_id w.db
  vendor' ← retier updates (set_fields updates vendor)
  let db' =
      audit hashing call writer.sub "VENDOR_UPDATED" vendor.id (as_details updates)
        (save_vendor vendor' w.db)
  ok (vendor', record w { db = db' })

abbrev pub transition_details : String → String → Details
transition_details from_state to_state =
    ("from_state", Detail.value (str from_state)) ∷ ("to_state", Detail.value (str to_state)) ∷ []

abbrev pub reviewers : List String
reviewers = "risk_officer" ∷ "ciso" ∷ "admin" ∷ []

unfoldable pub transition_vendor :
    Hashing → Call → TokenPayload → String → String → World → Result (Vendor × World)
transition_vendor hashing call user vendor_id target_state w = do
  writer ← require_role reviewers user
  vendor ← get_vendor_or_404 vendor_id w.db
  _ ← on_value_error (validate_transition vendor.onboarding_state target_state) (Error.http 422)
  let vendor' = record vendor { onboarding_state = target_state }
  let db' =
      audit hashing call writer.sub "VENDOR_LIFECYCLE_TRANSITION" vendor.id
        (transition_details vendor.onboarding_state target_state) (save_vendor vendor' w.db)
  let (_, bus') =
      publish_lifecycle_event vendor.id vendor.onboarding_state target_state vendor.overall_tier
        writer.sub w.bus
  ok (vendor', record w { db = db'; bus = bus' })
