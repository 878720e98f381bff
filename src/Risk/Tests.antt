-- ===== src/Risk/Tests.antt =====
-- Concrete runs of risk-service. Floats are whole numbers here, and the weights are one.
use sc_tpcrs.Prelude.{
  ℕ, ◌+◌, ◌-◌, ◌*◌, ◌/◌, ◌≡◌, refl, true, false, some, [], ◌==◌, ltb, leb, decimal, ok,
  if◌then◌else◌,
}
use sc_tpcrs.Prelude.Floats.{Floats}
use sc_tpcrs.Audit.{Hashing}
use sc_tpcrs.Jwt.{TokenPayload}
use sc_tpcrs.Risk.Models.{Scores, RiskScoreHistory, World, Call}
use sc_tpcrs.Risk.Sources.{Adapters, unreachable, response}
use sc_tpcrs.Risk.Service.{Model, collect_scores, compute_risk_score}
use sc_tpcrs.Risk.Scored.{IsScored, compute_risk_score-IsScored}

abbrev whole : Floats
whole = record {
  F = ℕ;
  literal = λ s. if s == "100.0" then 100 else if s == "0.0" then 0 else 1;
  of_int = λ n. n;
  add = λ a b. a + b;
  sub = λ a b. a - b;
  mul = λ a b. a * b;
  div = λ a b. a / b;
  lt = ltb;
  le = leb;
  round2 = λ a. a;
  fixed1 = decimal;
  repr = decimal;
}

abbrev adapters : Adapters ℕ
adapters = record {
  questionnaire = λ v. response 200 (ok 80);
  documents = λ v. unreachable;
  shodan = λ v. ok 70;
  misp = λ v. ok 1;
  abuseipdb = λ v. ok 2;
  nvd = λ name version ecosystem. ok [];
  kev = λ cve name version. ok false;
}

abbrev model : Model ℕ
model = record { predict_proba = λ features. 1; version = "v1" }

abbrev call : Call
call = record { now = 5; now_text = "t5"; score_id = "s1"; flag_id = "f1"; component_id = decimal }

abbrev officer : TokenPayload
officer = record { sub = "ada"; role = "risk_officer"; mfa_verified = true; exp = 9000; iat = 0 }

abbrev hashing : Hashing
hashing = record { sha256_hex = λ s. s; json_dumps = λ e. e.action }

abbrev empty : World ℕ
empty = record {
  db = record { scores = []; tech_stack = []; flags = []; audit_log = [] };
  bus = record { connected = false; start_ok = true; send_ok = true; now = "t5"; sent = [] };
}

collected : (s : Scores ℕ) × (collect_scores whole adapters "v1" (ok "v1") empty.db ≡ ok s)
unfolding collect_scores sc_tpcrs.Risk.Sources.get_questionnaire_score
    sc_tpcrs.Risk.Sources.get_external_posture_score sc_tpcrs.Risk.Sources.get_vulnerability_score
    sc_tpcrs.Risk.Sources.get_breach_history_score sc_tpcrs.Risk.Sources.get_threat_intel_score
    sc_tpcrs.Risk.Sources.get_compliance_score
collected = (_, refl)

compute_risk_score-IsScored_example :
    (row : RiskScoreHistory ℕ) × (w' : World ℕ) × (compute_risk_score whole hashing adapters
        (some model)
        call
        officer
        "v1"
        empty
      ≡ ok (row, w'))
    × IsScored whole "v1" collected.0 row empty.db w'.db
compute_risk_score-IsScored_example =
    compute_risk_score-IsScored whole hashing adapters (some model) call officer "v1" collected.0
      empty refl collected.1

abbrev low_scores : Scores ℕ
low_scores = record {
  questionnaire_score = 5;
  external_posture_score = 1;
  vulnerability_score = 0;
  breach_history_score = 3;
  threat_intel_score = 9;
  compliance_score = 2;
}

abbrev high_scores : Scores ℕ
high_scores = record low_scores { questionnaire_score = 8; compliance_score = 30 }
