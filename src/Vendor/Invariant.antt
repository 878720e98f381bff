-- ===== src/Vendor/Invariant.antt =====
-- The invariants of the tables of vendor-service, under creating and updating a vendor.
use sc_tpcrs.Prelude.{
  String, ◌≡◌, refl, ◌∙◌, subst, inl, inr, true, false, [], ◌∷◌, ◌==◌, arith, All, All-append,
  All-find_first, All-replace, one_of, Bool-cases, ok, bind-ok, ok-injective, or_raise-ok,
}
use sc_tpcrs.Prelude.Value.{Value, str, Dict}
use sc_tpcrs.Audit.{Hashing}
use sc_tpcrs.Jwt.{TokenPayload, require_role}
use sc_tpcrs.Vendor.Lifecycle.{states}
use sc_tpcrs.Vendor.Tiering.{compute_tier}
use sc_tpcrs.Vendor.Models.{Vendor, Questionnaire, Db, World, Call}
use sc_tpcrs.Vendor.Vendors.{
  VendorCreateRequest, find_vendor, get_vendor_or_404, save_vendor, audit, create_vendor, set_field,
  set_fields, is_dimension, has_dimension, retier, update_vendor,
}
use sc_tpcrs.Vendor.Questionnaires.{fully_answered}

pub record IsConsistent (v : Vendor) : Type 0 where
  pub tiered :
      compute_tier v.data_access_scope v.service_criticality v.integration_depth ≡ ok v.overall_tier
  pub known : one_of v.onboarding_state states ≡ true

abbrev pub IsFinished : Questionnaire → Type 0
IsFinished q = (q.status == "COMPLETED") ≡ true → fully_answered q.responses ≡ true

pub record AreConsistent (db : Db) : Type 0 where
  pub vendors : All IsConsistent db.vendors
  pub questionnaires : All IsFinished db.questionnaires

-- What an update keeps of a vendor if it names no dimension.
record Keeps (v v' : Vendor) : Type 0 where
  scope : v'.data_access_scope ≡ v.data_access_scope
  criticality : v'.service_criticality ≡ v.service_criticality
  depth : v'.integration_depth ≡ v.integration_depth

set_field-Keeps :
    (field : String) (value : Value) (v : Vendor)
    → is_dimension field ≡ false
    → Keeps v (set_field field value v)
unfolding set_field
set_field-Keeps field value v h = record {
  scope = ground arith;
  criticality = ground arith;
  depth = ground arith;
}

set_fields-Keeps :
    (updates : Dict) (v : Vendor) → has_dimension updates ≡ false → Keeps v (set_fields updates v)
unfolding set_fields
set_fields-Keeps [] v h = record { scope = refl; criticality = refl; depth = refl }
set_fields-Keeps ((field, value) ∷ updates) v h =
    let first = set_field-Keeps field value v (ground arith) in
    let rest = set_fields-Keeps updates (set_field field value v) (ground arith) in
    record {
      scope = rest.scope ∙ first.scope;
      criticality = rest.criticality ∙ first.criticality;
      depth = rest.depth ∙ first.depth;
    }

set_field-state :
    (field : String) (value : Value) (v : Vendor)
    → ((set_field field value v).onboarding_state ≡ v.onboarding_state)
      × ((set_field field value v).overall_tier ≡ v.overall_tier)
unfolding set_field
set_field-state field value v = (ground arith, ground arith)

set_fields-state :
    (updates : Dict) (v : Vendor)
    → ((set_fields updates v).onboarding_state ≡ v.onboarding_state)
      × ((set_fields updates v).overall_tier ≡ v.overall_tier)
unfolding set_fields
set_fields-state [] v = (refl, refl)
set_fields-state ((field, value) ∷ updates) v =
    let first = set_field-state field value v in
    let rest = set_fields-state updates (set_field field value v) in
    (rest.0 ∙ first.0, rest.1 ∙ first.1)

retier-IsConsistent :
    (updates : Dict) (v v' : Vendor)
    → retier updates (set_fields updates v) ≡ ok v'
    → IsConsistent v
    → IsConsistent v'
unfolding retier
retier-IsConsistent updates v v' e h = elim (Bool-cases (has_dimension updates)) [
  | inl some_dimension ↦
      let new = set_fields updates v in
      let (tier, computed, done) =
        bind-ok (compute_tier new.data_access_scope new.service_criticality new.integration_depth)
          (rw some_dimension at e) in
      subst IsConsistent (ok-injective done)
        (record { tiered = computed; known = rw (set_fields-state updates v).0 h.known })
  | inr no_dimension ↦
      let keeps = set_fields-Keeps updates v no_dimension in
      subst IsConsistent (ok-injective (rw no_dimension at e)) (record {
        tiered =
            rw (keeps.scope, keeps.criticality, keeps.depth, (set_fields-state updates v).1)
              h.tiered;
        known = rw (set_fields-state updates v).0 h.known;
      })
]

pub saved :
    (v : Vendor) (db db' : Db)
    → db'.vendors ≡ (save_vendor v db).vendors
    → db'.questionnaires ≡ db.questionnaires
    → IsConsistent v
    → AreConsistent db
    → AreConsistent db'
unfolding save_vendor
saved v db db' vendors same c h = record {
  vendors =
      rw vendors (All-replace IsConsistent (λ (x : Vendor). x.id == v.id) v db.vendors c h.vendors);
  questionnaires = rw same h.questionnaires;
}

pub found :
    (id : String) (db : Db) (v : Vendor)
    → get_vendor_or_404 id db ≡ ok v
    → AreConsistent db
    → IsConsistent v
unfolding get_vendor_or_404 find_vendor
found id db v e h =
    All-find_first IsConsistent (λ (x : Vendor). x.id == id) db.vendors v h.vendors
      (or_raise-ok _ _ e)

module _ (hashing : Hashing) (call : Call) (user : TokenPayload) where
  pub create_vendor-AreConsistent :
      (payload : VendorCreateRequest) (w w' : World) (v : Vendor)
      → create_vendor hashing call user payload w ≡ ok (v, w')
      → AreConsistent w.db
      → AreConsistent w'.db
  unfolding create_vendor audit
  create_vendor-AreConsistent payload w w' v e h =
      let (writer, allowed, rest) = bind-ok (require_role _ user) e in
      let (tier, computed, done) =
        bind-ok
          (compute_tier (str payload.data_access_scope) (str payload.service_criticality)
            (str payload.integration_depth))
          rest in
      subst (λ (p : Vendor × World). AreConsistent p.1.db) (ok-injective done)
        (record {
          vendors =
              All-append IsConsistent w.db.vendors _ h.vendors
                (record { tiered = computed; known = refl }, tt);
          questionnaires = h.questionnaires;
        })

  pub update_vendor-AreConsistent :
      (id : String) (updates : Dict) (w w' : World) (v : Vendor)
      → update_vendor hashing call user id updates w ≡ ok (v, w')
      → AreConsistent w.db
      → AreConsistent w'.db
  unfolding update_vendor audit save_vendor
  update_vendor-AreConsistent id updates w w' v e h =
      let (writer, allowed, rest) = bind-ok (require_role _ user) e in
      let (old, got, rest') = bind-ok (get_vendor_or_404 id w.db) rest in
      let (new, tiered, done) = bind-ok (retier updates (set_fields updates old)) rest' in
      subst (λ (p : Vendor × World). AreConsistent p.1.db) (ok-injective done)
        (saved new w.db _ refl refl
          (retier-IsConsistent updates old new tiered (found id w.db old got h)) h)
