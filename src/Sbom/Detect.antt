-- ===== src/Sbom/Detect.antt =====
-- `detect_and_parse` of services/parsers.py: the format is guessed from the content.
use sc_tpcrs.Prelude.{
  ◌⊎◌, inl, inr, String, Bool, true, false, ◌||◌, Option, none, some, ◌==◌, starts_with,
  contains_text, fstring, [], ◌∷◌, Result, ok, err, Error, ◌>>=◌, if◌then◌else◌,
}
use sc_tpcrs.Prelude.Strings.{lower, lstrip}
use sc_tpcrs.Sbom.Json.{Json, str, object, lookup_field, get, no_attribute}
use sc_tpcrs.Sbom.Purl.{PurlLibrary}
use sc_tpcrs.Sbom.Parsers.{ParsedSbom, parse_cyclonedx_json, parse_spdx_json}
use sc_tpcrs.Sbom.Parsers.TagValue.{parse_spdx_tag_value}
use sc_tpcrs.Sbom.Parsers.Xml.{Element, parse_cyclonedx_xml}

-- `json.loads`, the message of its error otherwise; and `defusedxml`, none where it raises.
pub record Readers : Type 0 where
  pub json_loads : String → String ⊎ Json
  pub xml_fromstring : String → Option Element

-- What a call ends with when it raises no other exception: a document, or a `SbomParseError`.
pub data Detected : Type 0 where
  document : ParsedSbom → Detected
  parse_error : String → Detected

-- `k in doc` of the dict that a text beginning with a brace gives.
abbrev has_key : String → Json → Bool
has_key k (object fs) = elim (lookup_field k fs) [ none ↦ false | some _ ↦ true ]
has_key k _ = false

-- `doc.get("$schema", "").find("cyclonedx") != -1`.
schema_names_cyclonedx : Option Json → Result Bool
schema_names_cyclonedx none = ok false
schema_names_cyclonedx (some (str s)) = ok (contains_text s "cyclonedx")
schema_names_cyclonedx (some v) = no_attribute

-- The second test is made only if the first fails, the third only if both do.
unfoldable pub is_cyclonedx : Json → Result Bool
unfolding schema_names_cyclonedx
is_cyclonedx doc =
    if has_key "bomFormat" doc
    then ok true
    else (get doc "$schema" >>= λ schema.
        schema_names_cyclonedx schema >>= λ named. ok (named || has_key "components" doc))

abbrev pub is_spdx : Json → Bool
is_spdx doc = has_key "spdxVersion" doc || (has_key "packages" doc || has_key "SPDXID" doc)

-- `format_hint.upper() == "SPDX"`, which for ASCII texts is the same test.
abbrev hints_spdx : Option String → Bool
hints_spdx none = false
hints_spdx (some hint) = lower hint == "spdx"

abbrev pub unrecognised : String
unrecognised = "Unrecognised SBOM format (expected CycloneDX JSON/XML or SPDX JSON/tag-value)."

module _ (library : PurlLibrary) (readers : Readers) where
  abbrev parsed : Result ParsedSbom → Result Detected
  parsed r = r >>= λ sbom. ok (document sbom)

  unfoldable pub parse_json : Option String → Json → Result Detected
  unfolding is_cyclonedx lower
  parse_json format_hint doc = is_cyclonedx doc >>= λ cyclonedx.
      if cyclonedx
      then parsed (parse_cyclonedx_json library doc)
      else if is_spdx doc || hints_spdx format_hint
      then parsed (parse_spdx_json library doc)
      else parsed (parse_cyclonedx_json library doc)

  -- Malformed XML raises an error that is no `ValueError`.
  unfoldable pub parse_xml : String → Result Detected
  parse_xml content = elim (readers.xml_fromstring content) [
    | none ↦ err (Error.external "ParseError")
    | some root ↦ parsed (parse_cyclonedx_xml library root)
  ]

  unfoldable pub detect_and_parse : String → Option String → Result Detected
  unfolding parse_json parse_xml lstrip
  detect_and_parse content format_hint =
      if starts_with (lstrip content) "{"
      then elim (readers.json_loads content) [
        | inl message ↦
            ok (
              parse_error
                (fstring ("content looks like JSON but failed to parse: " ∷ message ∷ [])))
        | inr doc ↦ parse_json format_hint doc
      ]
      else if starts_with (lstrip content) "<"
      then parse_xml content
      else if contains_text content "SPDXVersion"
          || (contains_text content "PackageName" || contains_text content "SPDXID")
      then parsed (parse_spdx_tag_value library content)
      else ok (parse_error unrecognised)
