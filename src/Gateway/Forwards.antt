-- ===== src/Gateway/Forwards.antt =====
-- What the gateway sends: the service of a path, and the headers with the user's.
use Prim.Native.Nat.{compare as compare_ℕ}
use Prim.Native.String.{slice, len, find, ◌++◌}
use mathlib.Core.List.{Memᴰ}
use text.Mathlib.Text.{is_le}
use text.Mathlib.TextFind.{find_cases}
use text.Mathlib.TextPositions.{slice-append_left}
use sc_tpcrs.Prelude.{
  ℕ, suc, String, ◌≡◌, ◌⊎◌, refl, sym, ap, ◌∙◌, subst, inl, inr, Bool, false, not, ◌&&◌, Option,
  none, some, List, [], ◌∷◌, ◌==◌, if◌then◌else◌, one_of, select, arith, Bool-cases, Option-cases,
  str_eq_of, eq_refl,
}
use mathlib.Core.Option.{some-injective}
use sc_tpcrs.Jwt.{TokenPayload}
use sc_tpcrs.Gateway.Routing.{Settings, route, prefix_of, resolve_upstream}
use sc_tpcrs.Gateway.Requests.{Request, Env, end_to_end, set_header, forward, sub_of, role_of}

-- The services, by the first part of the paths that they own.
abbrev pub services : Settings → List (String × String)
services settings =
    ("auth", settings.auth_service_url)
    ∷ ("vendors", settings.vendor_service_url)
    ∷ ("risk", settings.risk_service_url)
    ∷ ("sbom", settings.sbom_service_url)
    ∷ ("compliance", settings.compliance_service_url)
    ∷ ("monitoring", settings.monitoring_service_url)
    ∷ ("incidents", settings.incident_service_url)
    ∷ []

-- The path is the prefix, or goes on with a slash after it.
abbrev pub StartsAt : String → String → Type 0
StartsAt prefix path = (path ≡ prefix) ⊎ ((rest : String) × (path ≡ prefix ++ ("/" ++ rest)))

past_end : (n : ℕ) → is_le (compare_ℕ (suc n) n) ≡ false
past_end n = ground arith

prefix_of-StartsAt : (path : String) → StartsAt (prefix_of path) path
unfolding prefix_of
prefix_of-StartsAt path = elim (find_cases path "/") [
  | inl (u, v, parts, at) ↦ elim (Bool-cases (is_le (compare_ℕ (find path "/") (len path)))) [
    | inl inside ↦
        inr
          (v, rw (prefix_of, inside) (parts ∙ ap (λ p. p ++ ("/" ++ v)) (sym (taken u v parts at))))
    | inr outside ↦ inl (rw (prefix_of, outside) refl)
  ]
  | inr miss ↦
      inl (rw (prefix_of, ap (λ k. is_le (compare_ℕ k (len path))) miss ∙ past_end (len path)) refl)
]
  where
    taken :
        (u v : String)
        → path ≡ u ++ ("/" ++ v)
        → find path "/" ≡ len u
        → slice path 0 (find path "/") ≡ u
    taken u v parts at =
        ap (slice path 0) at ∙ ap (λ p. slice p 0 (len u)) parts ∙ slice-append_left u ("/" ++ v)

route-Memᴰ :
    (settings : Settings) (prefix base : String)
    → route settings prefix ≡ some base
    → Memᴰ (prefix, base) (services settings)
unfolding route
route-Memᴰ settings prefix base h = pick h (λ h.
    pick h (λ h. pick h (λ h. pick h (λ h. pick h (λ h. pick h (λ h. pick h (λ h. absurd cc)))))))
  where
    pick :
        {key url : String} {others : Option String} {rest : List (String × String)}
        → (if prefix == key then some url else others) ≡ some base
        → (others ≡ some base → Memᴰ (prefix, base) rest)
        → Memᴰ (prefix, base) ((key, url) ∷ rest)
    pick {key} {url} h more = elim (Bool-cases (prefix == key)) [
      | inl here ↦ Memᴰ.head (
          ap (λ k. (k, base)) (str_eq_of prefix key here)
          ∙ ap (λ u. (key, u)) (sym (some-injective _ _ (rw here at h))))
      | inr there ↦ Memᴰ.tail (more (rw there at h))
    ]

pub resolve_upstream-Memᴰ :
    (settings : Settings) (path base prefix : String)
    → resolve_upstream settings path ≡ some (base, prefix)
    → StartsAt prefix path × Memᴰ (prefix, base) (services settings)
unfolding resolve_upstream
resolve_upstream-Memᴰ settings path base prefix h =
    elim (Option-cases (route settings (prefix_of path))) [
      | inl missing ↦ absurd (cc (rw (resolve_upstream, missing) at h))
      | inr (url, found) ↦
          let same = some-injective _ _ (rw (resolve_upstream, found) at h) in
          let at : prefix_of path ≡ prefix = ap (λ p. p.1) same in
          (
            subst (λ p. StartsAt p path) at (prefix_of-StartsAt path),
            route-Memᴰ settings prefix base
                (ap (route settings) (sym at) ∙ found ∙ ap (λ p. some p.0) same),
          )
    ]

-- The first value of a header.
abbrev pub header_of : String → List (String × String) → Option String
header_of name [] = none
header_of name ((k, v) ∷ headers) =
    let rest = header_of name headers in if k == name then some v else rest

abbrev pub passes : Env → String × String → Bool
passes env h = not (
    one_of (env.lower h.0) (
      "connection" ∷ "keep-alive" ∷ "proxy-authenticate" ∷ "proxy-authorization" ∷ "te" ∷ "trailers"
      ∷ "transfer-encoding" ∷ "upgrade" ∷ "host" ∷ "content-length" ∷ []))

abbrev pub is_of_client : String × String → Bool
is_of_client h = not (h.0 == "X-User-Id") && not (h.0 == "X-User-Role")

-- Without a user the headers are the client's end-to-end ones, its own `X-User-Id` among them; with
-- one, the two headers of the user are the token's, and the others are the client's.
pub data Carries (env : Env) (client sent : List (String × String))
    : Option TokenPayload → Type 0 where
  of_anyone : sent ≡ select (passes env) client → Carries env client sent none
  of_user :
      (user : TokenPayload)
      → header_of "X-User-Id" sent ≡ some user.sub
      → header_of "X-User-Role" sent ≡ some user.role
      → select is_of_client sent ≡ select is_of_client (select (passes env) client)
      → Carries env client sent (some user)

end_to_end_lem :
    (env : Env) (headers : List (String × String))
    → end_to_end env headers ≡ select (passes env) headers
unfolding end_to_end
end_to_end_lem env [] = refl
end_to_end_lem env (h ∷ headers) = elim (Bool-cases (passes env h)) [
  | inl kept ↦ rw kept (ap (λ l. h ∷ l) (end_to_end_lem env headers))
  | inr dropped ↦ rw dropped (end_to_end_lem env headers)
]

header_of-set_header :
    (name value : String) (headers : List (String × String))
    → header_of name (set_header name value headers) ≡ some value
unfolding set_header
header_of-set_header name value [] = rw (eq_refl name) refl
header_of-set_header name value ((k, v) ∷ headers) = elim (Bool-cases (k == name)) [
  | inl here ↦ rw here (rw here refl)
  | inr there ↦ rw there (rw there (header_of-set_header name value headers))
]

header_of-set_header_other :
    (asked name value : String) (headers : List (String × String))
    → (name == asked) ≡ false
    → header_of asked (set_header name value headers) ≡ header_of asked headers
unfolding set_header
header_of-set_header_other asked name value [] other = rw other refl
header_of-set_header_other asked name value ((k, v) ∷ headers) other =
    elim (Bool-cases (k == name)) [
      | inl here ↦
          let elsewhere = ap (λ s. s == asked) (str_eq_of k name here) ∙ other in
          rw here (rw elsewhere refl)
      | inr there ↦ rw there (elim (Bool-cases (k == asked)) [
        | inl found ↦ rw found refl
        | inr next ↦ rw next (header_of-set_header_other asked name value headers other)
      ])
    ]

select-set_header :
    (name value : String) (headers : List (String × String))
    → is_of_client (name, value) ≡ false
    → select is_of_client (set_header name value headers) ≡ select is_of_client headers
unfolding set_header
select-set_header name value [] ours = rw ours refl
select-set_header name value ((k, v) ∷ headers) ours = elim (Bool-cases (k == name)) [
  | inl here ↦
      let theirs : is_of_client (k, v) ≡ false =
        ap (λ s. is_of_client (s, v)) (str_eq_of k name here) ∙ ours in
      rw here (rw theirs refl)
  | inr there ↦ rw there (elim (Bool-cases (is_of_client (k, v))) [
    | inl theirs ↦ rw theirs (ap (λ l. (k, v) ∷ l) (select-set_header name value headers ours))
    | inr other ↦ rw other (select-set_header name value headers ours)
  ])
]

pub forward-Carries :
    (env : Env) (request : Request) (base path : String) (user : Option TokenPayload)
    → Carries env request.headers
        (forward env request base path (sub_of user) (role_of user)).headers
        user
unfolding forward
forward-Carries env request base path none = of_anyone (end_to_end_lem env request.headers)
forward-Carries env request base path (some user) =
    let client = end_to_end env request.headers in
    of_user user
      (header_of-set_header_other "X-User-Id" "X-User-Role" user.role
          (set_header "X-User-Id" user.sub client) refl
        ∙ header_of-set_header "X-User-Id" user.sub client)
      (header_of-set_header "X-User-Role" user.role (set_header "X-User-Id" user.sub client))
      (select-set_header "X-User-Role" user.role (set_header "X-User-Id" user.sub client) refl
        ∙ select-set_header "X-User-Id" user.sub client refl
        ∙ ap (select is_of_client) (end_to_end_lem env request.headers))
