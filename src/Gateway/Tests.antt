-- ===== src/Gateway/Tests.antt =====
-- Concrete requests.
use sc_tpcrs.Prelude.{ℕ, ◌+◌, ◌-◌, ◌≤◌, refl, true, none, some, [], ◌∷◌, arith}
use sc_tpcrs.Jwt.{Claims, Signing, claims, access_claims}
use sc_tpcrs.Gateway.Routing.{Settings}
use sc_tpcrs.Gateway.Requests.{Request, Redis, Env, Forwarded}
use sc_tpcrs.Gateway.Laws.{CountsUntil, let_through, let_through-bounded}

abbrev settings : Settings
settings = record {
  auth_service_url = "http://auth";
  vendor_service_url = "http://vendor";
  risk_service_url = "http://risk";
  sbom_service_url = "http://sbom";
  compliance_service_url = "http://compliance";
  monitoring_service_url = "http://monitoring";
  incident_service_url = "http://incident";
  rate_limit_per_min = 300;
  login_rate_limit_per_min = 5;
}

-- A counter of its own for every test.
abbrev counter : Redis ℕ
counter = record { incr_expire_nx = λ key ttl now s. (s + 1, s + 1) }

abbrev env : Env
env = record {
  signing = record {
    encode = λ c k. "token";
    decode = λ t k n. claims (access_claims "ada" "ciso" true 15 0);
  };
  secret = some "key";
  now = 10;
  lower = λ s. "bearer token";
  strip = λ s. s;
}

abbrev request : Request
request = record {
  method = "GET";
  authorization = some "Bearer token";
  client_host = none;
  headers = ("accept", "*") ∷ [];
}

counts : CountsUntil counter "ratelimit:login:ada" 60 (λ s. s)
unfolding sc_tpcrs.Gateway.Requests.incr_with_ttl
counts = record { returned = λ now s l. refl; kept = λ now s l. refl }

let_through-bounded_example :
    let_through counter "login:ada" 5 (1 ∷ 2 ∷ 3 ∷ 4 ∷ 5 ∷ 6 ∷ 7 ∷ []) 0 ≤ 5 - 0
let_through-bounded_example =
    let_through-bounded counter "login:ada" 5 60 (λ s. s) counts (1 ∷ 2 ∷ 3 ∷ 4 ∷ 5 ∷ 6 ∷ 7 ∷ []) 0
      (omega arith)
