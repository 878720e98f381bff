-- ===== src/Sbom/Parsers.antt =====
-- services/sbom-service/app/services/parsers.py. `json.loads` and the XML parser of defusedxml come from outside. A
-- document of no known format is a value of its own, since the route answers `SbomParseError` alone with 422.
pub mod TagValue
pub mod Xml
use sc_tpcrs.Prelude.{
  String, Bool, true, false, not, ◌&&◌, ◌||◌, Option, none, some, List, [], ◌∷◌, ◌++◌, ◌==◌,
  starts_with, contains_text, one_of, fstring, or_else, Result, ok, err, Error, ◌>>=◌,
  if◌then◌else◌,
}
use sc_tpcrs.Prelude.Strings.{lower, strip, lstrip}
use sc_tpcrs.Sbom.Json.{
  Json, null, boolean, number, str, array, object, get, is_truthy, rows_of, no_attribute,
}
use sc_tpcrs.Sbom.Purl.{PurlLibrary, NormalisedComponent, normalise}

pub record ParsedSbom : Type 0 where
  pub sbom_format : String
  pub serialization : String
  pub spec_version : Option Json
  pub document_name : Option Json
  pub components : List NormalisedComponent
  pub external_refs : List Json

-- `str(v)` of a version that is a text or a number.
abbrev version_text : Json → Json
version_text (number n) = str n
version_text v = v

-- The components and the references that were collected.
abbrev pub Collected : Type 0
Collected = List NormalisedComponent × List Json

-- `if v: refs.append(v)`.
abbrev append_set : Option Json → List Json → List Json
append_set o refs = if is_truthy o then refs ++ or_else o null ∷ [] else refs

module _ (library : PurlLibrary) where
  first_hash : List Json → Result (Option Json)
  first_hash [] = ok none
  first_hash (h ∷ hs) = do
    content ← get h "content"
    if is_truthy content then ok content else first_hash hs

  unfoldable pub hash_from_cyclonedx : Json → Result (Option Json)
  unfolding first_hash
  hash_from_cyclonedx comp = do hashes ← get comp "hashes"; rows ← rows_of hashes; first_hash rows

  add_urls : List Json → List Json → Result (List Json)
  add_urls [] refs = ok refs
  add_urls (r ∷ rs) refs = do url ← get r "url"; add_urls rs (append_set url refs)

  unfoldable pub reference_urls : Json → List Json → Result (List Json)
  unfolding add_urls
  reference_urls holder refs = do
    references ← get holder "externalReferences"
    rows ← rows_of references
    add_urls rows refs

  unfoldable pub cyclonedx_components : List Json → Collected → Result Collected
  unfolding hash_from_cyclonedx reference_urls
  cyclonedx_components [] (components, refs) = ok (components, refs)
  cyclonedx_components (comp ∷ comps) (components, refs) = do
    name ← get comp "name"
    version ← get comp "version"
    ecosystem ← get comp "type"
    purl ← get comp "purl"
    cpe ← get comp "cpe"
    file_hash ← hash_from_cyclonedx comp
    component ← normalise library name version ecosystem purl cpe file_hash
    refs' ← reference_urls comp refs
    cyclonedx_components comps (components ++ component ∷ [], refs')

  -- `(doc.get("metadata", {}) or {}).get("component", {}).get("name")`.
  metadata_name : Option Json → Result (Option Json)
  metadata_name metadata =
      if is_truthy metadata
      then (get (or_else metadata null) "component" >>= λ component. elim component [
        | none ↦ ok none
        | some c ↦ get c "name"
      ])
      else ok none

  unfoldable pub parse_cyclonedx_json : Json → Result ParsedSbom
  unfolding cyclonedx_components reference_urls metadata_name
  parse_cyclonedx_json doc = do
    components ← get doc "components"
    rows ← rows_of components
    collected ← cyclonedx_components rows ([], [])
    refs ← reference_urls doc collected.1
    metadata ← get doc "metadata"
    name ← metadata_name metadata
    spec_version ← get doc "specVersion"
    ok (record {
      sbom_format = "CycloneDX";
      serialization = "json";
      spec_version =
          if is_truthy spec_version then some (version_text (or_else spec_version null)) else none;
      document_name = name;
      components = collected.0;
      external_refs = refs;
    })

  -- `(ref.get("referenceType") or "").lower()`.
  lower_text : Option Json → Result String
  lower_text (some (str s)) = ok (lower s)
  lower_text o = if is_truthy o then no_attribute else ok ""

  -- The purl and the identifier of platforms that the loop has so far.
  abbrev Locators : Type 0
  Locators = Option Json × Option Json

  -- The last reference of a kind that has a locator.
  located : String → Option Json → Locators → Locators
  located ref_type locator (purl, cpe) =
      if ref_type == "purl" && is_truthy locator
      then (locator, cpe)
      else if starts_with ref_type "cpe" && is_truthy locator
      then (purl, locator)
      else (purl, cpe)

  unfoldable pub spdx_purl_and_cpe : List Json → Locators → Result Locators
  unfolding lower_text located
  spdx_purl_and_cpe [] found = ok found
  spdx_purl_and_cpe (ref ∷ refs) found = do
    reference_type ← get ref "referenceType"
    ref_type ← lower_text reference_type
    locator ← get ref "referenceLocator"
    spdx_purl_and_cpe refs (located ref_type locator found)

  -- `download not in ("NOASSERTION", "NONE")`.
  is_location : Option Json → Bool
  is_location (some (str s)) = not (s == "") && not (one_of s ("NOASSERTION" ∷ "NONE" ∷ []))
  is_location o = is_truthy o

  unfoldable pub spdx_packages : List Json → Collected → Result Collected
  unfolding spdx_purl_and_cpe is_location
  spdx_packages [] (components, refs) = ok (components, refs)
  spdx_packages (pkg ∷ pkgs) (components, refs) = do
    external ← get pkg "externalRefs"
    rows ← rows_of external
    found ← spdx_purl_and_cpe rows (none, none)
    download ← get pkg "downloadLocation"
    name ← get pkg "name"
    version ← get pkg "versionInfo"
    component ← normalise library name version none found.0 found.1 none
    spdx_packages pkgs (
      components ++ component ∷ [],
      (if is_location download then refs ++ or_else download null ∷ [] else refs),
    )

  unfoldable pub parse_spdx_json : Json → Result ParsedSbom
  unfolding spdx_packages
  parse_spdx_json doc = do
    packages ← get doc "packages"
    rows ← rows_of packages
    collected ← spdx_packages rows ([], [])
    spec_version ← get doc "spdxVersion"
    name ← get doc "name"
    ok (record {
      sbom_format = "SPDX";
      serialization = "json";
      spec_version = spec_version;
      document_name = name;
      components = collected.0;
      external_refs = collected.1;
    })
