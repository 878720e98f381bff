-- ===== src/Sbom/Parsers/Xml.antt =====
-- `parse_cyclonedx_xml` of services/parsers.py over a parsed document: elements with a tag, attributes, a text and
-- children.
use sc_tpcrs.Prelude.{
  String, not, Option, none, some, List, [], ◌∷◌, ◌++◌, ◌==◌, last?, Result, ok, ◌>>=◌,
  if◌then◌else◌,
}
use sc_tpcrs.Prelude.Strings.{strip, split_on}
use sc_tpcrs.Sbom.Json.{Json, str}
use sc_tpcrs.Sbom.Purl.{PurlLibrary, normalise}
use sc_tpcrs.Sbom.Parsers.{ParsedSbom, Collected}
use sc_tpcrs.Sbom.Parsers.TagValue.{as_json}

mutual
  pub data Element : Type 0 where
    element : String → List (String × String) → Option String → Elements → Element

  pub data Elements : Type 0 where
    nil : Elements
    cons : Element → Elements → Elements

abbrev tag_of : Element → String
tag_of (element tag attrib text children) = tag

abbrev text_of : Element → Option String
text_of (element tag attrib text children) = text

abbrev attrib_of : Element → List (String × String)
attrib_of (element tag attrib text children) = attrib

to_list : Elements → List Element
to_list nil = []
to_list (cons e es) = e ∷ to_list es

unfoldable pub children_of : Element → List Element
unfolding to_list
children_of (element tag attrib text children) = to_list children

-- `elem.iter()`: the element and all below it, in document order.
unfoldable mutual
  pub iter : Element → List Element
  iter (element tag attrib text children) = element tag attrib text children ∷ iter_all children

  pub iter_all : Elements → List Element
  iter_all nil = []
  iter_all (cons e es) = iter e ++ iter_all es

-- `elem.attrib.get(k)`.
get_attribute : String → List (String × String) → Option String
get_attribute k [] = none
get_attribute k ((j, v) ∷ rest) =
    let later = get_attribute k rest in if j == k then some v else later

-- `tag.rsplit("}", 1)[-1]`.
strip_ns : String → String
unfolding split_on
strip_ns tag = elim (last? (split_on b'}' tag)) [ none ↦ "" | some part ↦ part ]

-- `e.text`, if it is there and not empty, stripped.
text_set : Element → Option String
unfolding strip
text_set e = elim (text_of e) [ none ↦ none | some t ↦ if t == "" then none else some (strip t) ]

abbrev or_keep {ℓ} : {A : Type ℓ} → Option A → Option A → Option A
or_keep none old = old
or_keep (some v) old = some v

-- The variables of the inner loop.
pub record Found : Type 0 where
  pub name : Option String
  pub version : Option String
  pub cpe : Option String
  pub purl : Option String
  pub file_hash : Option String
  pub refs : List Json

first_hash : List Element → Option String
unfolding strip_ns text_set
first_hash [] = none
first_hash (h ∷ hs) =
    let rest = first_hash hs in
    if strip_ns (tag_of h) == "hash" then or_keep (text_set h) rest else rest

add_urls : List Element → List Json → List Json
unfolding strip_ns text_set
add_urls [] refs = refs
add_urls (r ∷ rs) refs = add_urls rs (
    if strip_ns (tag_of r) == "url"
    then elim (text_set r) [ none ↦ refs | some url ↦ refs ++ str url ∷ [] ]
    else refs)

-- One round of the loop over the children of a component.
unfoldable pub read_child : Element → Found → Found
unfolding strip_ns text_set first_hash add_urls children_of iter
read_child child f =
    let tag = strip_ns (tag_of child) in
    let text = text_set child in
    if tag == "name"
    then record f { name = or_keep text f.name }
    else if tag == "version"
    then record f { version = or_keep text f.version }
    else if tag == "cpe"
    then record f { cpe = or_keep text f.cpe }
    else if tag == "purl"
    then record f { purl = or_keep text f.purl }
    else if tag == "hashes"
    then record f { file_hash = or_keep (first_hash (children_of child)) f.file_hash }
    else if tag == "externalReferences"
    then record f { refs = add_urls (iter child) f.refs }
    else f

read_children : List Element → Found → Found
unfolding read_child
read_children [] f = f
read_children (c ∷ cs) f = read_children cs (read_child c f)

module _ (library : PurlLibrary) where
  unfoldable pub xml_components : List Element → Collected → Result Collected
  unfolding strip_ns children_of read_children get_attribute
  xml_components [] (components, refs) = ok (components, refs)
  xml_components (elem ∷ elems) (components, refs) =
      let rest = xml_components elems (components, refs) in
      let f = read_children (children_of elem) (record {
        name = none;
        version = none;
        cpe = none;
        purl = none;
        file_hash = none;
        refs = refs;
      }) in
      let with_it =
        normalise library (as_json f.name) (as_json f.version)
          (as_json (get_attribute "type" (attrib_of elem))) (as_json f.purl) (as_json f.cpe)
          (as_json f.file_hash)
        >>= λ component. xml_components elems (components ++ component ∷ [], f.refs) in
      if not (strip_ns (tag_of elem) == "component") then rest else with_it

  unfoldable pub parse_cyclonedx_xml : Element → Result ParsedSbom
  unfolding iter get_attribute
  parse_cyclonedx_xml root = do
    collected ← xml_components (iter root) ([], [])
    ok (record {
      sbom_format = "CycloneDX";
      serialization = "xml";
      spec_version = elim (get_attribute "version" (attrib_of root)) [
        | none ↦ none
        | some v ↦ if v == "" then none else some (str v)
      ];
      document_name = none;
      components = collected.0;
      external_refs = collected.1;
    })
