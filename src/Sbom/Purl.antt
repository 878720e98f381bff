-- ===== src/Sbom/Purl.antt =====
-- services/sbom-service/app/services/purl_normalizer.py. The library packageurl comes from outside.
use sc_tpcrs.Prelude.{
  String, Bool, true, false, ◌&&◌, Option, none, some, List, [], ◌∷◌, ◌==◌, one_of, text_or, Result,
  ok, Error, ◌>>=◌, or_raise, or_else, if◌then◌else◌,
}
use sc_tpcrs.Prelude.Strings.{lower}
use sc_tpcrs.Sbom.Json.{Json, is_truthy, stripped}

pub record PackageUrl : Type 0 where
  pub package_type : String
  pub namespace : Option String
  pub name : String
  pub version : Option String

-- `PackageURL.from_string(s)` and `PackageURL(...).to_string()`, none where they raise `ValueError`.
pub record PurlLibrary : Type 0 where
  pub from_string : String → Option PackageUrl
  pub to_string : PackageUrl → Option String

-- The identifiers of platforms and the hash are passed on as they were read.
pub record NormalisedComponent : Type 0 where
  pub name : String
  pub version : String
  pub ecosystem : String
  pub purl : String
  pub synthesised : Bool
  pub cpe : Option Json
  pub file_hash : Option Json

unfoldable pub ecosystem_to_purl_type : List (String × String)
ecosystem_to_purl_type =
    ("npm", "npm")
    ∷ ("node", "npm")
    ∷ ("javascript", "npm")
    ∷ ("pypi", "pypi")
    ∷ ("python", "pypi")
    ∷ ("pip", "pypi")
    ∷ ("maven", "maven")
    ∷ ("java", "maven")
    ∷ ("gem", "gem")
    ∷ ("ruby", "gem")
    ∷ ("golang", "golang")
    ∷ ("go", "golang")
    ∷ ("cargo", "cargo")
    ∷ ("rust", "cargo")
    ∷ ("nuget", "nuget")
    ∷ ("dotnet", "nuget")
    ∷ ("composer", "composer")
    ∷ ("php", "composer")
    ∷ ("deb", "deb")
    ∷ ("rpm", "rpm")
    ∷ ("apk", "apk")
    ∷ ("docker", "docker")
    ∷ ("oci", "oci")
    ∷ ("generic", "generic")
    ∷ ("library", "generic")
    ∷ ("application", "generic")
    ∷ ("framework", "generic")
    ∷ []

unfoldable pub get_type : String → List (String × String) → String
get_type k [] = "generic"
get_type k ((eco, ptype) ∷ rest) = let later = get_type k rest in if eco == k then ptype else later

-- The argument is stripped already.
unfoldable pub purl_type_for : String → String
unfolding get_type ecosystem_to_purl_type lower
purl_type_for ecosystem = get_type (lower ecosystem) ecosystem_to_purl_type

abbrev named_ecosystems : List String
named_ecosystems = "npm" ∷ "pypi" ∷ "maven" ∷ "golang" ∷ "cargo" ∷ "nuget" ∷ "composer" ∷ []

-- The loop over the items of the dict.
unfoldable pub ecosystem_named : String → List (String × String) → String
ecosystem_named purl_type [] = purl_type
ecosystem_named purl_type ((eco, ptype) ∷ rest) =
    let later = ecosystem_named purl_type rest in
    if ptype == purl_type && one_of eco named_ecosystems then eco else later

unfoldable pub ecosystem_from_purl_type : String → String
unfolding ecosystem_named ecosystem_to_purl_type
ecosystem_from_purl_type purl_type = ecosystem_named purl_type ecosystem_to_purl_type

-- `t or None`.
abbrev or_none : String → Option String
or_none t = if t == "" then none else some t

module _ (library : PurlLibrary) where
  -- What is made of a given purl, none if the library raises `ValueError`.
  unfoldable pub canonicalised :
      String → String → Option Json → Option Json → PackageUrl → Option NormalisedComponent
  unfolding ecosystem_from_purl_type
  canonicalised name version cpe file_hash parsed =
      let known = text_or (or_else parsed.version "") version in
      elim (library.to_string (record parsed { version = or_none known })) [
        | none ↦ none
        | some canonical ↦ some (record {
          name = text_or parsed.name name;
          version = known;
          ecosystem = ecosystem_from_purl_type parsed.package_type;
          purl = canonical;
          synthesised = false;
          cpe = cpe;
          file_hash = file_hash;
        })
      ]

  unfoldable pub synthesise :
      String → String → Option Json → Option Json → Option Json → Result NormalisedComponent
  unfolding purl_type_for ecosystem_from_purl_type stripped
  synthesise name version ecosystem cpe file_hash = do
    eco ← stripped ecosystem "generic"
    let purl_type = purl_type_for eco
    purl ←
        or_raise
          (library.to_string (record {
            package_type = purl_type;
            namespace = none;
            name = text_or name "unknown";
            version = or_none version;
          }))
          (Error.value_error "PackageURL")
    ok (record {
      name = text_or name "unknown";
      version = version;
      ecosystem = ecosystem_from_purl_type purl_type;
      purl = purl;
      synthesised = true;
      cpe = cpe;
      file_hash = file_hash;
    })

  unfoldable pub parsed_purl :
      String → String → Option Json → Option Json → String → Option NormalisedComponent
  unfolding canonicalised
  parsed_purl name version cpe file_hash text = elim (library.from_string text) [
    | none ↦ none
    | some parsed ↦ canonicalised name version cpe file_hash parsed
  ]

  -- The purl that is given, canonicalised; none if there is none or the library refuses it.
  unfoldable pub from_given :
      String
      → String
      → Option Json
      → Option Json
      → Option Json
      → Result (Option NormalisedComponent)
  unfolding parsed_purl
  from_given name version purl cpe file_hash =
      if is_truthy purl
      then (stripped purl "" >>= λ text. ok (parsed_purl name version cpe file_hash text))
      else ok none

  unfoldable pub normalise :
      Option Json
      → Option Json
      → Option Json
      → Option Json
      → Option Json
      → Option Json
      → Result NormalisedComponent
  normalise name version ecosystem purl cpe file_hash = do
    v ← stripped version ""
    n ← stripped name ""
    given ← from_given n v purl cpe file_hash
    elim given [ some c ↦ ok c | none ↦ synthesise n v ecosystem cpe file_hash ]
