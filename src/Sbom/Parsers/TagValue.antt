-- ===== src/Sbom/Parsers/TagValue.antt =====
-- `parse_spdx_tag_value` of services/parsers.py: a line-oriented format, read by a loop over the lines, which skips
-- empty ones.
use sc_tpcrs.Prelude.{
  String, not, ◌||◌, Option, none, some, List, [], ◌∷◌, ◌++◌, ◌==◌, starts_with, contains_text,
  one_of, Result, ok, ◌>>=◌, if◌then◌else◌,
}
use sc_tpcrs.Prelude.Strings.{lower, strip, split_lines, words, partition_on}
use sc_tpcrs.Sbom.Json.{Json, str}
use sc_tpcrs.Sbom.Purl.{PurlLibrary, NormalisedComponent, normalise}
use sc_tpcrs.Sbom.Parsers.{ParsedSbom}

-- The package record that the lines are attached to.
pub record Package : Type 0 where
  pub name : String
  pub version : Option String
  pub purl : Option String
  pub cpe : Option String

-- The variables of the loop.
pub record Reader : Type 0 where
  pub components : List NormalisedComponent
  pub refs : List Json
  pub doc_name : Option String
  pub spec_version : Option String
  pub cur : Option Package

abbrev pub start : Reader
start = record { components = []; refs = []; doc_name = none; spec_version = none; cur = none }

abbrev pub as_json : Option String → Option Json
as_json none = none
as_json (some s) = some (str s)

-- `parts[1].lower(), parts[2]` of a reference with three parts or more.
abbrev attach_locator : List String → Package → Package
attach_locator (category ∷ ref_type ∷ locator ∷ rest) p =
    if lower ref_type == "purl"
    then record p { purl = some locator }
    else if starts_with (lower ref_type) "cpe"
    then record p { cpe = some locator }
    else p
attach_locator parts p = p

-- A line that belongs to the current package.
unfoldable pub attach : String → String → Package → Reader → Reader
unfolding lower words
attach tag value p s =
    if tag == "PackageVersion"
    then record s { cur = some (record p { version = some value }) }
    else if tag == "PackageDownloadLocation"
    then if one_of value ("NOASSERTION" ∷ "NONE" ∷ [])
      then s
      else record s { refs = s.refs ++ str value ∷ [] }
    else if tag == "ExternalRef"
    then record s { cur = some (attach_locator (words value) p) }
    else s

abbrev attach_current : String → String → Option Package → Reader → Reader
attach_current tag value none s = s
attach_current tag value (some p) s = attach tag value p s

module _ (library : PurlLibrary) where
  flush_package : Option Package → Reader → Result Reader
  flush_package none s = ok s
  flush_package (some p) s = do
    component ←
        normalise library (some (str p.name)) (as_json p.version) none (as_json p.purl)
          (as_json p.cpe) none
    ok (record s { components = s.components ++ component ∷ []; cur = none })

  unfoldable pub flush : Reader → Result Reader
  unfolding flush_package
  flush s = flush_package s.cur s

  unfoldable pub opened : String → Reader → Reader
  opened value s = record s {
    cur = some (record { name = value; version = none; purl = none; cpe = none });
  }

  unfoldable pub read_tag : String → String → Reader → Result Reader
  unfolding flush opened attach
  read_tag tag value s =
      if tag == "SPDXVersion"
      then ok (record s { spec_version = some value })
      else if tag == "DocumentName"
      then ok (record s { doc_name = some value })
      else if tag == "PackageName"
      then (flush s >>= λ s'. ok (opened value s'))
      else ok (attach_current tag value s.cur s)

  -- A line without a colon, an empty one and a comment are skipped.
  unfoldable pub read_line : String → Reader → Result Reader
  unfolding read_tag strip partition_on
  read_line raw s =
      let line = strip raw in
      let parts = partition_on b':' line in
      if line == "" || starts_with line "#"
      then ok s
      else if not (contains_text line ":")
      then ok s
      else read_tag (strip parts.0) (strip parts.1) s

  unfoldable pub read_lines : List String → Reader → Result Reader
  read_lines [] s = ok s
  read_lines (raw ∷ raws) s = do s' ← read_line raw s; read_lines raws s'

  unfoldable pub parse_spdx_tag_value : String → Result ParsedSbom
  unfolding split_lines
  parse_spdx_tag_value text = do
    s ← read_lines (split_lines text) start
    end ← flush s
    ok (record {
      sbom_format = "SPDX";
      serialization = "tag-value";
      spec_version = as_json end.spec_version;
      document_name = as_json end.doc_name;
      components = end.components;
      external_refs = end.refs;
    })
