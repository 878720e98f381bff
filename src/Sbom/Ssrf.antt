-- ===== src/Sbom/Ssrf.antt =====
-- services/sbom-service/app/services/ssrf_guard.py, and what it lets through. The parts of a URL, the resolution
-- of a host name and the classes of an address come from outside.
use sc_tpcrs.Prelude.{
  String, Bool, true, false, not, ◌||◌, Option, none, some, List, [], ◌∷◌, ◌==◌, one_of, fstring,
  or_else, if◌then◌else◌,
}
use sc_tpcrs.Prelude.Strings.{lower, strip, split_on}

pub record Settings : Type 0 where
  pub sbom_fetch_external_refs : Bool
  pub sbom_ref_allowed_hosts : String

-- `urlparse(url)`: the scheme, and the host name if there is one. A URL on which it raises is left out.
pub record ParsedUrl : Type 0 where
  pub scheme : String
  pub hostname : Option String

-- The properties of `ipaddress.ip_address`.
pub record IpAddress : Type 0 where
  pub is_private : Bool
  pub is_loopback : Bool
  pub is_link_local : Bool
  pub is_reserved : Bool
  pub is_multicast : Bool
  pub is_unspecified : Bool

-- `getaddrinfo` is none where the host cannot be resolved, `ip_address` where it raises `ValueError`.
pub record Network : Type 0 where
  pub urlparse : String → ParsedUrl
  pub getaddrinfo : String → Option (List String)
  pub ip_address : String → Option IpAddress

unfoldable pub allowed_from : List String → List String
unfolding lower strip
allowed_from [] = []
allowed_from (h ∷ hs) =
    let rest = allowed_from hs in if strip h == "" then rest else lower (strip h) ∷ rest

unfoldable pub allowed_hosts : Settings → List String
unfolding allowed_from split_on
allowed_hosts settings = allowed_from (split_on b',' settings.sbom_ref_allowed_hosts)

abbrev pub is_internal : IpAddress → Bool
is_internal ip =
    ip.is_private
    || (ip.is_loopback
        || (ip.is_link_local || (ip.is_reserved || (ip.is_multicast || ip.is_unspecified))))

-- One round of the loop over the addresses, and the rest of it.
unfoldable pub address_disallowed : Option IpAddress → Bool → Bool
address_disallowed none rest = true
address_disallowed (some ip) rest = if is_internal ip then true else rest

module _ (network : Network) where
  unfoldable pub any_disallowed : List String → Bool
  unfolding address_disallowed
  any_disallowed [] = false
  any_disallowed (addr ∷ addrs) =
      let rest = any_disallowed addrs in address_disallowed (network.ip_address addr) rest

  unfoldable pub is_disallowed_ip : String → Bool
  unfolding any_disallowed
  is_disallowed_ip host = elim (network.getaddrinfo host) [
    | none ↦ true
    | some addrs ↦ any_disallowed addrs
  ]

  unfoldable pub is_ref_fetchable : Settings → String → Bool × String
  is_ref_fetchable settings url =
      let parsed = network.urlparse url in
      let host = lower (or_else parsed.hostname "") in
      if not settings.sbom_fetch_external_refs
      then (false, "external-reference fetching disabled (SBOM_FETCH_EXTERNAL_REFS=false)")
      else if not (one_of (lower parsed.scheme) ("http" ∷ "https" ∷ []))
      then (false, fstring ("scheme '" ∷ parsed.scheme ∷ "' not permitted" ∷ []))
      else if host == ""
      then (false, "missing host")
      else if not (one_of host (allowed_hosts settings))
      then (false, fstring ("host '" ∷ host ∷ "' not in allow-list" ∷ []))
      else if is_disallowed_ip host
      then (
        false,
        fstring ("host '" ∷ host ∷ "' resolves to a private/loopback/reserved address" ∷ []),
      )
      else (true, "ok")
