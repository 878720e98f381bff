-- ===== src/Gateway/Requests.antt =====
-- services/gateway/app/auth_middleware.py, rate_limit.py, proxy.py and the route of main.py. Redis, the
-- upstream services and the string methods `lower` and `strip` are given from outside.
use Prim.Native.String.{slice, len}
use text.Mathlib.Text.{find?}
use sc_tpcrs.Prelude.{
  ℕ, ◌+◌, String, not, Option, none, some, List, [], ◌∷◌, ◌==◌, one_of, starts_with, fstring, ltb,
  or_else, Result, ok, err, Error, ◌>>=◌, ◌>>◌, raise_if, or_raise, if◌then◌else◌,
}
use sc_tpcrs.Jwt.{TokenPayload, Signing, Secret, decode_token, payload_of}
use sc_tpcrs.Gateway.Routing.{Settings, resolve_upstream, is_public}

pub record Request : Type 0 where
  pub method : String
  pub authorization : Option String
  pub client_host : Option String
  pub headers : List (String × String)

-- `pipeline().incr(key).expire(key, ttl, nx=True)` of Redis, at a time: the count and the state after.
pub record Redis (S : Type 0) : Type 0 where
  pub incr_expire_nx : String → ℕ → ℕ → S → ℕ × S

-- What a request takes from outside: the token library and its secret, the time, `str.lower` and
-- `str.strip`.
pub record Env : Type 0 where
  pub signing : Signing
  pub secret : Secret
  pub now : ℕ
  pub lower : String → String
  pub strip : String → String

-- `header.split(" ", 1)[1]`.
abbrev pub after_space : String → String
after_space header = elim (find? header " ") [
  | none ↦ ""
  | some k ↦ slice header (k + 1) (len header)
]

-- The token of the header, if it has one.
unfoldable pub bearer_token : Env → Option String → Option String
bearer_token env none = none
bearer_token env (some header) =
    if not (starts_with (env.lower header) "bearer ")
    then none
    else let token = env.strip (after_space header) in if token == "" then none else some token

unfoldable pub authenticate : Env → Option String → Result (Option TokenPayload)
authenticate env authorization_header = elim (bearer_token env authorization_header) [
  | none ↦ ok none
  | some token ↦
      decode_token env.signing env.secret token "access" env.now
      >>= (λ claims. payload_of claims >>= (λ user. ok (some user)))
]

module _ {S : Type 0} (redis : Redis S) where
  unfoldable pub incr_with_ttl : String → ℕ → ℕ → S → ℕ × S
  incr_with_ttl key ttl_seconds now s = redis.incr_expire_nx key ttl_seconds now s

  -- The state is returned also when the request is refused: the counter has been incremented.
  unfoldable pub enforce_rate_limit : String → ℕ → ℕ → S → Result (Unit {0}) × S
  enforce_rate_limit identifier limit_per_min now s =
      let (count, s') = incr_with_ttl (fstring ("ratelimit:" ∷ identifier ∷ [])) 60 now s in
      (raise_if (ltb limit_per_min count) (Error.http 429 "Rate limit exceeded"), s')

abbrev pub hop_by_hop_headers : List String
hop_by_hop_headers =
    "connection" ∷ "keep-alive" ∷ "proxy-authenticate" ∷ "proxy-authorization" ∷ "te" ∷ "trailers"
    ∷ "transfer-encoding" ∷ "upgrade" ∷ "host" ∷ "content-length" ∷ []

unfoldable pub end_to_end : Env → List (String × String) → List (String × String)
end_to_end env [] = []
end_to_end env ((k, v) ∷ headers) =
    let rest = end_to_end env headers in
    if not (one_of (env.lower k) hop_by_hop_headers) then (k, v) ∷ rest else rest

-- `headers[name] = value` of a dict of headers: other spellings of the name stay.
unfoldable pub set_header : String → String → List (String × String) → List (String × String)
set_header name value [] = (name, value) ∷ []
set_header name value ((k, v) ∷ headers) =
    let rest = set_header name value headers in
    if k == name then (k, value) ∷ headers else (k, v) ∷ rest

abbrev set_if : String → Option String → List (String × String) → List (String × String)
set_if name none headers = headers
set_if name (some value) headers = set_header name value headers

-- The request that `forward` sends.
pub record Forwarded : Type 0 where
  pub method : String
  pub url : String
  pub headers : List (String × String)

unfoldable pub forward : Env → Request → String → String → Option String → Option String → Forwarded
forward env request base_url downstream_path user_id user_role = record {
  method = request.method;
  url = fstring (base_url ∷ "/" ∷ downstream_path ∷ []);
  headers =
      set_if "X-User-Role" user_role (set_if "X-User-Id" user_id (end_to_end env request.headers));
}

-- The answer to a preflight request, or the request that is forwarded.
pub data Response : Type 0 where
  no_content : Response
  forwarded : Forwarded → Response

abbrev pub sub_of : Option TokenPayload → Option String
sub_of none = none
sub_of (some user) = some user.sub

abbrev pub role_of : Option TokenPayload → Option String
role_of none = none
role_of (some user) = some user.role

-- The user of a request to a path, if it may pass.
unfoldable pub admit : Env → String → Option String → Result (Option TokenPayload)
admit env full_path authorization =
    if not (is_public full_path)
    then authenticate env authorization >>= (λ user.
      or_raise user (Error.http 401 "Missing or invalid bearer token") >>= (λ u. ok (some u)))
    else ok none

abbrev pub identifier_of : String → Request → Option TokenPayload → String
identifier_of full_path request user = fstring (
    (if full_path == "auth/login" then "login" else "general")
    ∷ ":"
    ∷ or_else (sub_of user) (or_else request.client_host "unknown")
    ∷ [])

module _ {S : Type 0} (redis : Redis S) where
  -- What follows the test of the user.
  unfoldable pub meter :
      Env → Settings → String → Request → String → Option TokenPayload → S → Result Response × S
  meter env settings full_path request base_url user s =
      let limit =
        if full_path == "auth/login"
        then settings.login_rate_limit_per_min
        else settings.rate_limit_per_min in
      let (passed, s') =
        enforce_rate_limit redis (identifier_of full_path request user) limit env.now s in
      (
        passed
            >> ok (forwarded (forward env request base_url full_path (sub_of user) (role_of user))),
        s',
      )

  unfoldable pub catch_all : Env → Settings → String → Request → S → Result Response × S
  catch_all env settings full_path request s = elim (resolve_upstream settings full_path) [
    | none ↦ (err (Error.http 404 "Unknown route"), s)
    | some (base_url, prefix) ↦
        if request.method == "OPTIONS"
        then (ok no_content, s)
        else elim (admit env full_path request.authorization) [
          | err e ↦ (err e, s)
          | ok user ↦ meter env settings full_path request base_url user s
        ]
  ]
