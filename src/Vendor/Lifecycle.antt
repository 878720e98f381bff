-- ===== src/Vendor/Lifecycle.antt =====
-- services/vendor-service/app/services/state_machine.py.
use sc_tpcrs.Prelude.{
  String, not, List, [], ◌∷◌, ◌==◌, one_of, fstring, Result, Error, raise_if, if◌then◌else◌,
}

abbrev pub states : List String
states =
    "INITIATED" ∷ "QUESTIONNAIRE_SENT" ∷ "QUESTIONNAIRE_COMPLETED" ∷ "ASSESSMENT_IN_PROGRESS"
    ∷ "ONBOARDED" ∷ "REJECTED" ∷ []

abbrev pub terminal_states : List String
terminal_states = "ONBOARDED" ∷ "REJECTED" ∷ []

-- `ALLOWED_TRANSITIONS.get(current, frozenset())`.
unfoldable pub allowed_transitions : String → List String
allowed_transitions current =
    if current == "INITIATED"
    then "QUESTIONNAIRE_SENT" ∷ []
    else if current == "QUESTIONNAIRE_SENT"
    then "QUESTIONNAIRE_COMPLETED" ∷ []
    else if current == "QUESTIONNAIRE_COMPLETED"
    then "ASSESSMENT_IN_PROGRESS" ∷ []
    else if current == "ASSESSMENT_IN_PROGRESS"
    then "ONBOARDED" ∷ "REJECTED" ∷ []
    else []

-- `InvalidTransitionError` is a `ValueError`.
unfoldable pub validate_transition : String → String → Result (Unit {0})
validate_transition current target = raise_if (not (one_of target (allowed_transitions current))) (
    Error.value_error
      (fstring ("Cannot transition vendor from '" ∷ current ∷ "' to '" ∷ target ∷ "'" ∷ [])))
