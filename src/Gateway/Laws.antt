-- ===== src/Gateway/Laws.antt =====
-- What passes the gateway.
use sc_tpcrs.Prelude.{
  ℕ, ◌+◌, ◌-◌, ◌≤◌, ◌<◌, All, String, ◌≡◌, refl, Bool, true, false, Option, none, some, List, [],
  ◌∷◌, arith, ltb, Result, ok, err, Error, raise_if, ltb-false→le, if◌then◌else◌, fstring, one_of,
  starts_with, ◌||◌,
}
use mathlib.Core.List.{Memᴰ}
use sc_tpcrs.Jwt.{Claims, TokenPayload, decode_token, payload_of}
use sc_tpcrs.Gateway.Routing.{Settings}
use sc_tpcrs.Gateway.Forwards.{StartsAt, services, Carries}
use sc_tpcrs.Gateway.Requests.{
  Request, Redis, Env, bearer_token, enforce_rate_limit, incr_with_ttl, Forwarded,
}

-- The header holds an access token that was accepted, and the user is the token's.
pub record IsAuthenticated (env : Env) (authorization : Option String) (user : TokenPayload)
    : Type 0 where
  pub token : String
  pub bearer : bearer_token env authorization ≡ some token
  pub claims : Claims
  pub decoded : decode_token env.signing env.secret token "access" env.now ≡ ok claims
  pub payload : payload_of claims ≡ ok user

-- The paths of login, of its second step, and of the demonstration users.
abbrev opens : String → Bool
opens path = one_of path ("auth/login" ∷ "auth/mfa/verify" ∷ []) || starts_with path "auth/dev/"

-- Who the request of a path is let through for: anyone on a public path, an authenticated user elsewhere.
pub data IsAdmitted (env : Env) (path : String) (authorization : Option String)
    : Option TokenPayload → Type 0 where
  anyone : opens path ≡ true → IsAdmitted env path authorization none
  known :
      (user : TokenPayload)
      → opens path ≡ false
      → IsAuthenticated env authorization user
      → IsAdmitted env path authorization (some user)

-- What a request that reaches a service is: its target, its method, and its headers.
pub record IsForwarded (env : Env) (settings : Settings) (path : String) (request : Request)
    (f : Forwarded) : Type 0 where
  pub base_url : String
  pub prefix : String
  pub starts : StartsAt prefix path
  pub served : Memᴰ (prefix, base_url) (services settings)
  pub url : f.url ≡ fstring (base_url ∷ "/" ∷ path ∷ [])
  pub method : f.method ≡ request.method
  pub user : Option TokenPayload
  pub admitted : IsAdmitted env path request.authorization user
  pub headers : Carries env request.headers f.headers user

-- Until a time, Redis counts the calls for a key: `INCR` adds one to the counter and returns it, and the
-- expiry that the first call has set is not moved by `EXPIRE ... NX`.
pub record CountsUntil {S : Type 0} (redis : Redis S) (key : String) (finish : ℕ) (value : S → ℕ)
    : Type 0 where
  pub returned :
      (now : ℕ) (s : S) → now < finish → (incr_with_ttl redis key 60 now s).0 ≡ value s + 1
  pub kept :
      (now : ℕ) (s : S) → now < finish → value (incr_with_ttl redis key 60 now s).1 ≡ value s + 1

module _ {S : Type 0} (redis : Redis S) (identifier : String) (limit : ℕ) where
  abbrev is_ok : Result (Unit {0}) → Bool
  is_ok (ok u) = true
  is_ok (err e) = false

  -- How many requests at the times are let through, one after the other.
  abbrev pub let_through : List ℕ → S → ℕ
  let_through [] s = 0
  let_through (now ∷ times) s =
      let r = enforce_rate_limit redis identifier limit now s in
      (if is_ok r.0 then 1 else 0) + let_through times r.1

  -- Where Redis counts the calls for a key until a time, the requests before that time that the
  -- limiter lets through are at most those that the limit has left.
  pub let_through-bounded :
      (finish : ℕ) (value : S → ℕ)
      → CountsUntil redis (fstring ("ratelimit:" ∷ identifier ∷ [])) finish value
      → (times : List ℕ) (s : S) → All (λ now. now < finish) times
      → let_through times s ≤ limit - value s
  unfolding enforce_rate_limit
  let_through-bounded finish value counts [] s h = omega arith
  let_through-bounded finish value counts (now ∷ times) s h =
      let key = fstring ("ratelimit:" ∷ identifier ∷ []) in
      let rest =
        let_through-bounded finish value counts times (incr_with_ttl redis key 60 now s).1 h.1 in
      step (ltb limit (incr_with_ttl redis key 60 now s).0) _ (value s) _ _ refl
        (counts.returned now s h.0) (counts.kept now s h.0) rest
    where
      step :
          (b : Bool) (count v left v' : ℕ)
          → ltb limit count ≡ b
          → count ≡ v + 1
          → v' ≡ v + 1
          → left ≤ limit - v'
          → (if is_ok (raise_if b (Error.http 429 "Rate limit exceeded")) then 1 else 0) + left
            ≤ limit - v
      step true count v left v' over e e' l = omega (arith, e', l)
      step false count v left v' under e e' l =
          omega (arith, ltb-false→le limit count under, e, e', l)
