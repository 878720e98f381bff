-- ===== src/Vendor/Questionnaires.antt =====
-- services/vendor-service/app/routers/questionnaires.py. The codes of a questionnaire's responses are
-- keys of the table, so that `by_code` finds every row with the code.
use sc_tpcrs.Prelude.{
  ℕ, String, Bool, true, false, ◌&&◌, Option, none, some, List, [], ◌∷◌, ◌++◌, map, ◌==◌, length,
  select, find_first, update_where, last?, fstring, Result, ok, Error, ◌>>=◌, ◌>>◌, raise_if,
  or_raise, on_value_error, if◌then◌else◌,
}
use sc_tpcrs.Prelude.Floats.{Floats}
use sc_tpcrs.Prelude.Value.{str, boolean, Detail, Details}
use sc_tpcrs.Prelude.Sorting.{sort_by}
use sc_tpcrs.Jwt.{TokenPayload, require_role}
use sc_tpcrs.Audit.{Hashing}
use sc_tpcrs.Vendor.Lifecycle.{validate_transition}
use sc_tpcrs.Vendor.QuestionBank.{Question, questions_for_tier, score_for_answer}
use sc_tpcrs.Vendor.Models.{Vendor, Questionnaire, QuestionnaireResponse, Db, World, Call}
use sc_tpcrs.Vendor.Vendors.{
  editors, get_vendor_or_404, save_vendor, audit, publish_lifecycle_event,
}

-- The newest questionnaire of the vendor.
unfoldable pub latest_questionnaire : String → Db → Option Questionnaire
latest_questionnaire vendor_id db =
    last? (select (λ (q : Questionnaire). q.vendor_id == vendor_id) db.questionnaires)

unfoldable pub latest_questionnaire_or_404 : String → Db → Result Questionnaire
unfolding latest_questionnaire
latest_questionnaire_or_404 vendor_id db =
    or_raise (latest_questionnaire vendor_id db)
      (Error.http 404 "No questionnaire found for this vendor")

-- The response holds the questionnaire with its questions in the order of their codes.
unfoldable pub to_out : Questionnaire → Questionnaire
to_out questionnaire = record questionnaire {
  responses = sort_by (λ (r : QuestionnaireResponse). r.question_code) questionnaire.responses;
}

abbrev unanswered : Question → QuestionnaireResponse
unanswered q = record {
  domain = q.domain;
  question_code = q.code;
  question_text = q.text;
  answer = none;
  score = none;
  answered_at = none;
}

unfoldable pub new_questionnaire : Call → Vendor → List Question → Questionnaire
new_questionnaire call vendor questions = record {
  id = call.new_id;
  vendor_id = vendor.id;
  tier = vendor.overall_tier;
  status = "SENT";
  sent_at = some call.now;
  completed_at = none;
  responses = map unanswered questions;
}

abbrev generated_details : Questionnaire → Vendor → Details
generated_details questionnaire vendor =
    ("questionnaire_id", Detail.value (str questionnaire.id))
    ∷ ("tier", Detail.value (str vendor.overall_tier))
    ∷ []

unfoldable pub generate_questionnaire :
    Hashing → Call → TokenPayload → String → World → Result (Questionnaire × World)
generate_questionnaire hashing call user vendor_id w = do
  writer ← require_role editors user
  vendor ← get_vendor_or_404 vendor_id w.db
  _ ←
      on_value_error (validate_transition vendor.onboarding_state "QUESTIONNAIRE_SENT")
        (Error.http 422)
  questions ← questions_for_tier vendor.overall_tier
  let questionnaire = new_questionnaire call vendor questions
  let vendor' = record vendor { onboarding_state = "QUESTIONNAIRE_SENT" }
  let db' =
      audit hashing call writer.sub "QUESTIONNAIRE_GENERATED" vendor_id
        (generated_details questionnaire vendor)
        (save_vendor vendor'
          (record w.db { questionnaires = w.db.questionnaires ++ questionnaire ∷ [] }))
  let (_, bus') =
      publish_lifecycle_event vendor_id vendor.onboarding_state "QUESTIONNAIRE_SENT"
        vendor.overall_tier writer.sub w.bus
  stored ← latest_questionnaire_or_404 vendor_id db'
  ok (to_out stored, record w { db = db'; bus = bus' })

unfoldable pub get_questionnaire : String → Db → Result Questionnaire
get_questionnaire vendor_id db = do
  questionnaire ← latest_questionnaire_or_404 vendor_id db
  ok (to_out questionnaire)

pub record Answer : Type 0 where
  pub question_code : String
  pub answer : String

abbrev pub answered : Answer → Option ℕ → ℕ → QuestionnaireResponse → QuestionnaireResponse
answered item score now r = record r {
  answer = some item.answer;
  score = score;
  answered_at = some now;
}

-- The loop over `payload.responses`.
unfoldable pub answer_all :
    ℕ → List Answer → List QuestionnaireResponse → Result (List QuestionnaireResponse)
answer_all now [] responses = ok responses
answer_all now (item ∷ items) responses = do
  response ←
      or_raise
        (find_first (λ (r : QuestionnaireResponse). r.question_code == item.question_code)
          responses)
        (Error.http 400 (fstring ("Unknown question_code: " ∷ item.question_code ∷ [])))
  score ← score_for_answer (some item.answer)
  answer_all now items (
      update_where (λ (r : QuestionnaireResponse). r.question_code == item.question_code)
        (answered item score now) responses)

abbrev is_answered : Option String → Bool
is_answered none = false
is_answered (some _) = true

-- `all(r.answer is not None for r in responses)`.
abbrev pub fully_answered : List QuestionnaireResponse → Bool
fully_answered [] = true
fully_answered (r ∷ rs) = is_answered r.answer && fully_answered rs

unfoldable pub save_questionnaire : Questionnaire → Db → Db
save_questionnaire questionnaire db = record db {
  questionnaires =
      update_where (λ (q : Questionnaire). q.id == questionnaire.id) (λ _. questionnaire)
        db.questionnaires;
}

abbrev updated_details : Questionnaire → Bool → Details
updated_details questionnaire full =
    ("questionnaire_id", Detail.value (str questionnaire.id))
    ∷ ("fully_answered", Detail.value (boolean full))
    ∷ []

-- The questionnaire and the vendor after the branch on `fully_answered`.
unfoldable pub complete : ℕ → Questionnaire → Vendor → Result (Questionnaire × Vendor)
complete now questionnaire vendor =
    if fully_answered questionnaire.responses
    then on_value_error (validate_transition vendor.onboarding_state "QUESTIONNAIRE_COMPLETED")
        (Error.http 422)
      >>= (λ _. ok (
        record questionnaire { status = "COMPLETED"; completed_at = some now },
        record vendor { onboarding_state = "QUESTIONNAIRE_COMPLETED" },
      ))
    else ok (record questionnaire { status = "IN_PROGRESS" }, vendor)

unfoldable pub update_responses :
    Hashing → Call → TokenPayload → String → List Answer → World → Result (Questionnaire × World)
update_responses hashing call user vendor_id items w = do
  vendor ← get_vendor_or_404 vendor_id w.db
  questionnaire ← latest_questionnaire_or_404 vendor_id w.db
  raise_if (questionnaire.status == "COMPLETED") (Error.http 422 "Questionnaire already completed")
  responses ← answer_all call.now items questionnaire.responses
  (questionnaire', vendor') ←
      complete call.now (record questionnaire { responses = responses }) vendor
  let full = fully_answered responses
  let db' =
      audit hashing call user.sub "QUESTIONNAIRE_RESPONSES_UPDATED" vendor_id
        (updated_details questionnaire full)
        (save_vendor vendor' (save_questionnaire questionnaire' w.db))
  let (_, bus') =
      publish_lifecycle_event vendor_id vendor.onboarding_state "QUESTIONNAIRE_COMPLETED"
        vendor.overall_tier user.sub w.bus
  stored ← latest_questionnaire_or_404 vendor_id db'
  ok (to_out stored, record w { db = db'; bus = if full then bus' else w.bus })

abbrev pub scores_of : List QuestionnaireResponse → List ℕ
scores_of [] = []
scores_of (r ∷ rs) = elim r.score [ none ↦ scores_of rs | some s ↦ s ∷ scores_of rs ]

module _ (fl : Floats) where
  open fl use {F, of_int, add, div, round2}

  abbrev total : F → List ℕ → F
  total acc [] = acc
  total acc (s ∷ ss) = total (add acc (of_int s)) ss

  unfoldable pub score_of : List ℕ → F
  score_of [] = of_int 0
  score_of (s ∷ ss) = round2 (div (total (of_int 0) (s ∷ ss)) (of_int (length (s ∷ ss))))

  unfoldable pub get_questionnaire_score : String → Db → Result F
  unfolding score_of
  get_questionnaire_score vendor_id db = do
    questionnaire ← latest_questionnaire_or_404 vendor_id db
    ok (score_of (scores_of questionnaire.responses))
