-- ===== src/Vendor/Steps.antt =====
-- The successful calls of the handlers of vendor-service as steps, and sequences of them.
use sc_tpcrs.Prelude.{
  ℕ, String, ◌≡◌, refl, subst, inl, inr, List, [], ◌∷◌, ◌++◌, ◌==◌, All-append, All-replace,
  Bool-cases, ok, Error, bind-ok, ok-injective, on_value_error, on_value_error-ok, raise_if,
}
use sc_tpcrs.Prelude.Value.{Dict}
use sc_tpcrs.Audit.{Hashing}
use sc_tpcrs.Jwt.{TokenPayload, require_role}
use sc_tpcrs.Vendor.Lifecycle.{validate_transition}
use sc_tpcrs.Vendor.QuestionBank.{questions_for_tier}
use sc_tpcrs.Vendor.Models.{Vendor, Questionnaire, World, Call}
use sc_tpcrs.Vendor.Vendors.{
  VendorCreateRequest, get_vendor_or_404, save_vendor, audit, create_vendor, update_vendor,
  transition_vendor,
}
use sc_tpcrs.Vendor.Questionnaires.{
  Answer, latest_questionnaire_or_404, generate_questionnaire, new_questionnaire, answer_all,
  fully_answered, save_questionnaire, complete, update_responses,
}
use sc_tpcrs.Vendor.Laws.{validate_transition_onward}
use sc_tpcrs.Vendor.Invariant.{
  IsConsistent, IsFinished, AreConsistent, saved, found, create_vendor-AreConsistent,
  update_vendor-AreConsistent,
}

-- An accepted transition leads a consistent vendor to a known state.
moved-IsConsistent :
    (v : Vendor) (target : String)
    → validate_transition v.onboarding_state target ≡ ok tt
    → IsConsistent v
    → IsConsistent (record v { onboarding_state = target })
moved-IsConsistent v target e h = record {
  tiered = h.tiered;
  known = (validate_transition_onward v.onboarding_state target e).0;
}

-- What completing a questionnaire does to it and to the vendor.
complete-IsConsistent :
    (now : ℕ) (q : Questionnaire) (v : Vendor) (r : Questionnaire × Vendor)
    → complete now q v ≡ ok r
    → IsConsistent v
    → IsFinished r.0 × IsConsistent r.1
unfolding complete
complete-IsConsistent now q v r e h = elim (Bool-cases (fully_answered q.responses)) [
  | inl full ↦
      let (u, accepted, done) =
        bind-ok
          (on_value_error (validate_transition v.onboarding_state "QUESTIONNAIRE_COMPLETED")
            (Error.http 422))
          (rw full at e) in
      subst (λ (p : Questionnaire × Vendor). IsFinished p.0 × IsConsistent p.1) (ok-injective done)
        (
          λ _. full,
          moved-IsConsistent v "QUESTIONNAIRE_COMPLETED" (on_value_error-ok _ _ accepted) h,
        )
  | inr missing ↦
      subst (λ (p : Questionnaire × Vendor). IsFinished p.0 × IsConsistent p.1)
        (ok-injective (rw missing at e)) (λ c. cc, h)
]

module _ (hashing : Hashing) (call : Call) (user : TokenPayload) where
  transition_vendor-AreConsistent :
      (id target : String) (w w' : World) (v : Vendor)
      → transition_vendor hashing call user id target w ≡ ok (v, w')
      → AreConsistent w.db
      → AreConsistent w'.db
  unfolding transition_vendor audit save_vendor
  transition_vendor-AreConsistent id target w w' v e h =
      let (writer, allowed, rest) = bind-ok (require_role _ user) e in
      let (old, got, rest') = bind-ok (get_vendor_or_404 id w.db) rest in
      let (u, accepted, done) =
        bind-ok (on_value_error (validate_transition old.onboarding_state target) (Error.http 422))
          rest' in
      subst (λ (p : Vendor × World). AreConsistent p.1.db) (ok-injective done)
        (saved (record old { onboarding_state = target }) w.db _ refl refl
          (moved-IsConsistent old target (on_value_error-ok _ _ accepted) (found id w.db old got h))
          h)

  generate_questionnaire-AreConsistent :
      (id : String) (w w' : World) (q : Questionnaire)
      → generate_questionnaire hashing call user id w ≡ ok (q, w')
      → AreConsistent w.db
      → AreConsistent w'.db
  unfolding generate_questionnaire audit save_vendor new_questionnaire
  generate_questionnaire-AreConsistent id w w' q e h =
      let (writer, allowed, r1) = bind-ok (require_role _ user) e in
      let (old, got, r2) = bind-ok (get_vendor_or_404 id w.db) r1 in
      let (u, accepted, r3) =
        bind-ok
          (on_value_error (validate_transition old.onboarding_state "QUESTIONNAIRE_SENT")
            (Error.http 422))
          r2 in
      let (questions, asked, r4) = bind-ok (questions_for_tier old.overall_tier) r3 in
      let (stored, latest, done) = bind-ok (latest_questionnaire_or_404 id _) r4 in
      subst (λ (p : Questionnaire × World). AreConsistent p.1.db) (ok-injective done)
        (saved (record old { onboarding_state = "QUESTIONNAIRE_SENT" })
          (record w.db {
            questionnaires = w.db.questionnaires ++ new_questionnaire call old questions ∷ [];
          })
          _ refl refl
          (moved-IsConsistent old "QUESTIONNAIRE_SENT" (on_value_error-ok _ _ accepted)
            (found id w.db old got h))
          (record {
            vendors = h.vendors;
            questionnaires =
                All-append IsFinished w.db.questionnaires _ h.questionnaires (λ c. cc, tt);
          }))

  update_responses-AreConsistent :
      (id : String) (items : List Answer) (w w' : World) (q : Questionnaire)
      → update_responses hashing call user id items w ≡ ok (q, w')
      → AreConsistent w.db
      → AreConsistent w'.db
  unfolding update_responses audit save_vendor save_questionnaire
  update_responses-AreConsistent id items w w' q e h =
      let (old, got, r1) = bind-ok (get_vendor_or_404 id w.db) e in
      let (asked, latest, r2) = bind-ok (latest_questionnaire_or_404 id w.db) r1 in
      let (u, open_yet, r3) =
        bind-ok
          (raise_if (asked.status == "COMPLETED")
            (Error.http 422 "Questionnaire already completed"))
          r2 in
      let (responses, answers, r4) = bind-ok (answer_all call.now items asked.responses) r3 in
      let (both, completed, r5) =
        bind-ok (complete call.now (record asked { responses = responses }) old) r4 in
      let (stored, newest, done) = bind-ok (latest_questionnaire_or_404 id _) r5 in
      let c =
        complete-IsConsistent call.now (record asked { responses = responses }) old both completed
          (found id w.db old got h) in
      subst (λ (p : Questionnaire × World). AreConsistent p.1.db) (ok-injective done)
        (saved both.1 (save_questionnaire both.0 w.db) _ refl refl c.1 (record {
          vendors = h.vendors;
          questionnaires =
              All-replace IsFinished (λ (x : Questionnaire). x.id == both.0.id) both.0
                w.db.questionnaires c.0 h.questionnaires;
        }))

pub data Step (hashing : Hashing) (w w' : World) : Type 0 where
  created :
      (call : Call) (user : TokenPayload) (payload : VendorCreateRequest) (v : Vendor)
      → create_vendor hashing call user payload w ≡ ok (v, w')
      → Step hashing w w'
  updated :
      (call : Call) (user : TokenPayload) (id : String) (updates : Dict) (v : Vendor)
      → update_vendor hashing call user id updates w ≡ ok (v, w')
      → Step hashing w w'
  moved :
      (call : Call) (user : TokenPayload) (id target : String) (v : Vendor)
      → transition_vendor hashing call user id target w ≡ ok (v, w')
      → Step hashing w w'
  generated :
      (call : Call) (user : TokenPayload) (id : String) (q : Questionnaire)
      → generate_questionnaire hashing call user id w ≡ ok (q, w')
      → Step hashing w w'
  answered :
      (call : Call) (user : TokenPayload) (id : String) (items : List Answer) (q : Questionnaire)
      → update_responses hashing call user id items w ≡ ok (q, w')
      → Step hashing w w'

-- Worlds that some sequence of successful calls leads to.
pub data Reach (hashing : Hashing) (w : World) : World → Type 0 where
  here : Reach hashing w w
  next : {w' w'' : World} → Reach hashing w w' → Step hashing w' w'' → Reach hashing w w''

pub Step-AreConsistent :
    (hashing : Hashing) (w w' : World)
    → Step hashing w w'
    → AreConsistent w.db
    → AreConsistent w'.db
Step-AreConsistent hashing w w' (created call user payload v e) h =
    create_vendor-AreConsistent hashing call user payload w w' v e h
Step-AreConsistent hashing w w' (updated call user id updates v e) h =
    update_vendor-AreConsistent hashing call user id updates w w' v e h
Step-AreConsistent hashing w w' (moved call user id target v e) h =
    transition_vendor-AreConsistent hashing call user id target w w' v e h
Step-AreConsistent hashing w w' (generated call user id q e) h =
    generate_questionnaire-AreConsistent hashing call user id w w' q e h
Step-AreConsistent hashing w w' (answered call user id items q e) h =
    update_responses-AreConsistent hashing call user id items w w' q e h

-- In every world that successful calls of the five writing handlers lead to from consistent tables,
-- every vendor's tier is the one that its dimensions give, its state is a known one, and a
-- completed questionnaire has an answer to every question.
pub Reach-AreConsistent :
    (hashing : Hashing) (w w' : World)
    → Reach hashing w w'
    → AreConsistent w.db
    → AreConsistent w'.db
Reach-AreConsistent hashing w w' here h = h
Reach-AreConsistent hashing w w' (next {w' = v} r s) h =
    Step-AreConsistent hashing v w' s (Reach-AreConsistent hashing w v r h)
