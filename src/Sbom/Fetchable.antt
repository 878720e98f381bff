-- ===== src/Sbom/Fetchable.antt =====
-- Which references of a document the guard lets through.
use sc_tpcrs.Prelude.{
  ◌||◌, ◌⊎◌, str_eq_of, eq_refl, String, ◌≡◌, ◌↔◌, refl, inl, inr, Bool, true, false, not, Option,
  none, some, List, [], ◌∷◌, ◌==◌, one_of, or_else, if◌then◌else◌, Bool-cases, Option-cases, All,
}
use sc_tpcrs.Prelude.Strings.{strip, split_on, lower}
use sc_tpcrs.Sbom.Ssrf.{
  Settings, IpAddress, Network, allowed_from, allowed_hosts, is_internal, address_disallowed,
  any_disallowed, is_disallowed_ip, is_ref_fetchable,
}

-- The guard looks at an address, and it is external.
address_disallowed-false :
    (o : Option IpAddress) (rest : Bool)
    → address_disallowed o rest ≡ false
    → (ip : IpAddress) × (o ≡ some ip) × (is_internal ip ≡ false) × (rest ≡ false)
unfolding address_disallowed
address_disallowed-false none rest h = cc
address_disallowed-false (some ip) rest h = elim (Bool-cases (is_internal ip)) [
  | inl internal ↦ cc (rw internal at h)
  | inr external ↦ (ip, refl, external, rw external at h)
]

abbrev answer :
    Bool → Bool → Bool → Bool → Bool → String → String → String → String → String → Bool × String
answer enabled scheme nameless listed disallowed a b c d e =
    if not enabled
    then (false, a)
    else if not scheme
    then (false, b)
    else if nameless
    then (false, c)
    else if not listed
    then (false, d)
    else if disallowed
    then (false, e)
    else (true, "ok")

-- The chain of refusals ends in a permission where no test refuses.
answer_iff :
    (enabled scheme nameless listed disallowed : Bool) (a b c d e : String)
    → ((answer enabled scheme nameless listed disallowed a b c d e).0 ≡ true) ↔ (
        (enabled ≡ true)
        × (scheme ≡ true)
        × (nameless ≡ false)
        × (listed ≡ true)
        × (disallowed ≡ false))
answer_iff false scheme nameless listed disallowed a b c d e = (λ h. cc h, λ t. cc (t.0))
answer_iff true false nameless listed disallowed a b c d e = (λ h. cc h, λ t. cc (t.1))
answer_iff true true true listed disallowed a b c d e = (λ h. cc h, λ t. cc (t.2))
answer_iff true true false false disallowed a b c d e = (λ h. cc h, λ t. cc (t.3))
answer_iff true true false true true a b c d e = (λ h. cc h, λ t. cc (t.4))
answer_iff true true false true false a b c d e = (λ h. (refl, refl, refl, refl, refl), λ t. refl)

-- An address of none of the six internal kinds.
pub record IsExternal (ip : IpAddress) : Type 0 where
  pub is_private : ip.is_private ≡ false
  pub is_loopback : ip.is_loopback ≡ false
  pub is_link_local : ip.is_link_local ≡ false
  pub is_reserved : ip.is_reserved ≡ false
  pub is_multicast : ip.is_multicast ≡ false
  pub is_unspecified : ip.is_unspecified ≡ false

or-false : (a b : Bool) → (a || b) ≡ false → (a ≡ false) × (b ≡ false)
or-false true b h = cc
or-false false b h = (refl, h)

is_internal-IsExternal : (ip : IpAddress) → is_internal ip ≡ false → IsExternal ip
is_internal-IsExternal ip h =
    let (private, h1) = or-false ip.is_private _ h in
    let (loopback, h2) = or-false ip.is_loopback _ h1 in
    let (link_local, h3) = or-false ip.is_link_local _ h2 in
    let (reserved, h4) = or-false ip.is_reserved _ h3 in
    let (multicast, unspecified) = or-false ip.is_multicast _ h4 in
    record {
      is_private = private;
      is_loopback = loopback;
      is_link_local = link_local;
      is_reserved = reserved;
      is_multicast = multicast;
      is_unspecified = unspecified;
    }

IsExternal-is_internal : (ip : IpAddress) → IsExternal ip → is_internal ip ≡ false
IsExternal-is_internal ip e =
    rw
      (
        e.is_private, e.is_loopback, e.is_link_local, e.is_reserved, e.is_multicast,
        e.is_unspecified,
      )
      refl

-- The host is one of the entries, which are read without the space around them, in small letters, and count only
-- if something is left.
abbrev pub IsEntry : String → List String → Type 0
IsEntry host [] = ⊥
IsEntry host (e ∷ es) = (((strip e == "") ≡ false) × (host ≡ lower (strip e))) ⊎ IsEntry host es

allowed_from-IsEntry :
    (host : String) (es : List String) → one_of host (allowed_from es) ≡ true → IsEntry host es
unfolding allowed_from
allowed_from-IsEntry host [] h = cc
allowed_from-IsEntry host (e ∷ es) h = elim (Bool-cases (strip e == "")) [
  | inl blank ↦ inr (allowed_from-IsEntry host es (rw (allowed_from, blank) at h))
  | inr kept ↦ elim (Bool-cases (host == lower (strip e))) [
    | inl hit ↦ inl (kept, str_eq_of _ _ hit)
    | inr miss ↦ inr (allowed_from-IsEntry host es (rw (allowed_from, kept, miss) at h))
  ]
]

IsEntry-allowed_from :
    (host : String) (es : List String) → IsEntry host es → one_of host (allowed_from es) ≡ true
unfolding allowed_from
IsEntry-allowed_from host [] h = absurd h
IsEntry-allowed_from host (e ∷ es) (inl (kept, same)) =
    rw (kept, same, eq_refl (lower (strip e))) refl
IsEntry-allowed_from host (e ∷ es) (inr later) =
    let rest = IsEntry-allowed_from host es later in
    elim (Bool-cases (strip e == "")) [
      | inl blank ↦ rw (blank, rest) refl
      | inr kept ↦ elim (Bool-cases (host == lower (strip e))) [
        | inl hit ↦ rw (kept, hit) refl
        | inr miss ↦ rw (kept, miss, rest) refl
      ]
    ]

module _ (network : Network) where
  -- Every address is one that the guard lets through.
  abbrev IsPublic : String → Type 0
  IsPublic addr = (ip : IpAddress) × (network.ip_address addr ≡ some ip) × IsExternal ip

  -- All that is required of a reference that may be fetched.
  pub record CanFetch (settings : Settings) (url host : String) : Type 0 where
    pub enabled : settings.sbom_fetch_external_refs ≡ true
    pub scheme : one_of (lower (network.urlparse url).scheme) ("http" ∷ "https" ∷ []) ≡ true
    pub named : (host == "") ≡ false
    pub listed : IsEntry host (split_on b',' settings.sbom_ref_allowed_hosts)
    pub addresses : List String
    pub resolved : network.getaddrinfo host ≡ some addresses
    pub public_only : All IsPublic addresses

  any_disallowed-false :
      (addrs : List String) → any_disallowed network addrs ≡ false → All IsPublic addrs
  unfolding any_disallowed
  any_disallowed-false [] h = tt
  any_disallowed-false (a ∷ addrs) h =
      let (ip, parsed, external, later) =
        address_disallowed-false (network.ip_address a) (any_disallowed network addrs) h in
      ((ip, parsed, is_internal-IsExternal ip external), any_disallowed-false addrs later)

  any_disallowed_external :
      (addrs : List String) → All IsPublic addrs → any_disallowed network addrs ≡ false
  unfolding any_disallowed
  any_disallowed_external [] h = refl
  any_disallowed_external (a ∷ addrs) ((ip, parsed, external), h) =
      rw (parsed, any_disallowed, IsExternal-is_internal ip external)
        (any_disallowed_external addrs h)

  is_disallowed_ip-false :
      (host : String)
      → is_disallowed_ip network host ≡ false
      → (addrs : List String) × (network.getaddrinfo host ≡ some addrs) × All IsPublic addrs
  unfolding is_disallowed_ip
  is_disallowed_ip-false host h = elim (Option-cases (network.getaddrinfo host)) [
    | inl unknown ↦ cc (rw (unknown, is_disallowed_ip) at h)
    | inr (addrs, found) ↦
        (addrs, found, any_disallowed-false addrs (rw (found, is_disallowed_ip) at h))
  ]

  is_disallowed_ip_public :
      (host : String) (addrs : List String)
      → network.getaddrinfo host ≡ some addrs
      → All IsPublic addrs
      → is_disallowed_ip network host ≡ false
  unfolding is_disallowed_ip
  is_disallowed_ip_public host addrs found h =
      rw (found, is_disallowed_ip) (any_disallowed_external addrs h)

  -- A reference may be fetched exactly when fetching is enabled, the scheme is a web one, and the
  -- host is named, is an entry of the configured list, and resolves to addresses of which none is
  -- private, loopback, link-local, reserved, multicast or unspecified.
  pub is_ref_fetchable_iff :
      (settings : Settings) (url : String)
      → (is_ref_fetchable network settings url).0 ≡ true
        ↔ CanFetch settings url (lower (or_else (network.urlparse url).hostname ""))
  unfolding is_ref_fetchable allowed_hosts
  is_ref_fetchable_iff settings url =
      let host = lower (or_else (network.urlparse url).hostname "") in
      let tests =
        answer_iff settings.sbom_fetch_external_refs
          (one_of (lower (network.urlparse url).scheme) ("http" ∷ "https" ∷ [])) (host == "")
          (one_of host (allowed_hosts settings)) (is_disallowed_ip network host) _ _ _ _ _ in
      (
        λ h.
            let (enabled, scheme, named, listed, allowed) = tests.0 h in
            let (addrs, found, external) = is_disallowed_ip-false host allowed in
            record {
              enabled = enabled;
              scheme = scheme;
              named = named;
              listed = allowed_from-IsEntry host _ listed;
              addresses = addrs;
              resolved = found;
              public_only = external;
            },
        λ c. tests.1 (
          c.enabled,
          c.scheme,
          c.named,
          IsEntry-allowed_from host _ c.listed,
          is_disallowed_ip_public host c.addresses c.resolved c.public_only,
        ),
      )
