-- ===== src/Sbom/Tests.antt =====
-- Concrete runs of sbom-service. Floats are whole numbers here, a literal of a score is 1, and one host can be
-- resolved.
use sc_tpcrs.Prelude.{
  ℕ, ◌+◌, ◌-◌, ◌*◌, ◌/◌, String, ◌≡◌, refl, ◌↔◌, inl, inr, Bool, true, false, Option, none, some,
  List, [], ◌∷◌, ◌==◌, ltb, leb, decimal, Result, ok, err, if◌then◌else◌,
}
use sc_tpcrs.Prelude.Strings.{lower}
use sc_tpcrs.Prelude.Floats.{Floats}
use sc_tpcrs.Audit.{Hashing}
use sc_tpcrs.Jwt.{TokenPayload}
use sc_tpcrs.Sbom.Json.{Json, Items, Fields}
use sc_tpcrs.Sbom.Purl.{PurlLibrary, PackageUrl}
use sc_tpcrs.Sbom.Scanner.{Feeds, CveRecord}
use sc_tpcrs.Sbom.Ssrf.{
  Settings, Network, IpAddress, allowed_hosts, is_disallowed_ip, is_ref_fetchable,
}
use sc_tpcrs.Sbom.Fetchable.{CanFetch, is_ref_fetchable_iff}
use sc_tpcrs.Sbom.Parsers.{ParsedSbom}
use sc_tpcrs.Sbom.Detect.{Readers, document, detect_and_parse}
use sc_tpcrs.Sbom.Models.{SbomDocument, World, Call}
use sc_tpcrs.Sbom.Ingest.{IngestRequest, ingest}
use sc_tpcrs.Sbom.Recorded.{IsIngested, ingest-IsIngested}
use sc_tpcrs.Sbom.Graph.{Row, Measures, get_supply_chain_graph}
use sc_tpcrs.Sbom.WellFormed.{IsGraph, get_supply_chain_graph-IsGraph}

abbrev whole : Floats
whole = record {
  F = ℕ;
  literal = λ s. 1;
  of_int = λ n. n;
  add = λ a b. a + b;
  sub = λ a b. a - b;
  mul = λ a b. a * b;
  div = λ a b. a / b;
  lt = ltb;
  le = leb;
  round2 = λ a. a;
  fixed1 = decimal;
  repr = decimal;
}

abbrev global_address : IpAddress
global_address = record {
  is_private = false;
  is_loopback = false;
  is_link_local = false;
  is_reserved = false;
  is_multicast = false;
  is_unspecified = false;
}

abbrev network : Network
network = record {
  urlparse = λ url. record { scheme = "https"; hostname = some url };
  getaddrinfo = λ host. if host == "example.org" then some ("93.184.215.14" ∷ []) else none;
  ip_address = λ addr. some global_address;
}

abbrev settings : Settings
settings = record {
  sbom_fetch_external_refs = true;
  sbom_ref_allowed_hosts = " Example.org , example.net";
}

is_ref_fetchable_iff_example :
    (is_ref_fetchable network settings "EXAMPLE.org").0 ≡ true
    ↔ CanFetch network settings "EXAMPLE.org" "example.org"
unfolding lower
is_ref_fetchable_iff_example = is_ref_fetchable_iff network settings "EXAMPLE.org"

reference_is_fetched : (is_ref_fetchable network settings "EXAMPLE.org").0 ≡ true
unfolding is_ref_fetchable lower allowed_hosts is_disallowed_ip
reference_is_fetched = refl

abbrev row : Option String → Row
row cve_id = record {
  vendor_id = "v1";
  vendor_name = some "Acme";
  tier = some "Critical";
  purl = "pkg:npm/left-pad@1.0";
  comp_name = none;
  cve_id = cve_id;
  severity = none;
}

abbrev measures : Measures ℕ
measures = record {
  betweenness = λ pairs. ("vendor:v1", 3) ∷ [];
  pagerank = λ pairs. [];
  round4 = λ x. x;
}

abbrev graph_rows : List Row
graph_rows = row none ∷ row (some "CVE-1") ∷ row (some "CVE-1") ∷ []

get_supply_chain_graph-IsGraph_example :
    IsGraph
      (get_supply_chain_graph whole measures graph_rows).0
      (get_supply_chain_graph whole measures graph_rows).1
get_supply_chain_graph-IsGraph_example = get_supply_chain_graph-IsGraph whole measures graph_rows

abbrev library : PurlLibrary
library = record { from_string = λ s. none; to_string = λ p. some p.name }

abbrev component : Json
component =
    Json.object (
      Fields.field "name" (Json.str "left-pad")
        (Fields.field "version" (Json.str "1.0") Fields.end))

abbrev bom : Json
bom = Json.object (
    Fields.field "bomFormat" (Json.str "CycloneDX")
      (Fields.field "components" (Json.array (Items.cons component Items.nil)) Fields.end))

abbrev readers : Readers
readers = record { json_loads = λ s. inr bom; xml_fromstring = λ s. none }

abbrev feeds : Feeds ℕ
feeds = record {
  nvd = λ name version ecosystem. ok (
      (record { cve_id = "CVE-1"; description = none; cvss_score = some 9; cvss_vector = none })
      ∷ []);
  kev = λ cve name version. ok (some true);
}

abbrev call : Call
call = record {
  now = 5;
  now_text = "t5";
  document_id = "d1";
  component_id = decimal;
  vulnerability_id = decimal;
}

abbrev officer : TokenPayload
officer = record { sub = "ada"; role = "risk_officer"; mfa_verified = true; exp = 9000; iat = 0 }

abbrev hashing : Hashing
hashing = record { sha256_hex = λ s. s; json_dumps = λ e. e.action }

abbrev empty : World ℕ
empty = record {
  db = record { documents = []; components = []; vulnerabilities = []; audit_log = [] };
  bus = record { connected = false; start_ok = true; send_ok = true; now = "t5"; sent = [] };
}

abbrev payload : IngestRequest whole
payload = record { vendor_id = "v1"; content = "{}"; document_name = none; format_hint = none }

-- The run ends in an answer.
ingests :
    (d : SbomDocument) × (w' : World ℕ) × (ingest whole library readers hashing network settings
        feeds call officer payload empty
      ≡ ok (d, w'))
unfolding ingest sc_tpcrs.Jwt.require_role detect_and_parse sc_tpcrs.Sbom.Json.lookup_field
    sc_tpcrs.Sbom.Parsers.parse_cyclonedx_json sc_tpcrs.Sbom.Json.get sc_tpcrs.Sbom.Json.rows_of
    sc_tpcrs.Sbom.Json.to_list sc_tpcrs.Sbom.Purl.normalise sc_tpcrs.Sbom.Json.stripped
    sc_tpcrs.Sbom.Purl.from_given sc_tpcrs.Sbom.Purl.synthesise sc_tpcrs.Sbom.Ingest.ingest_parsed
    sc_tpcrs.Sbom.Ingest.screen_refs sc_tpcrs.Sbom.Scanner.scan_components
    sc_tpcrs.Sbom.Scanner.scan_component sc_tpcrs.Prelude.Strings.strip
    sc_tpcrs.Prelude.Strings.lstrip sc_tpcrs.Prelude.Strings.rstrip sc_tpcrs.Sbom.Json.is_truthy
ingests = (_, _, refl)

ingest-IsIngested_example :
    (parsed : ParsedSbom) × (detect_and_parse library readers "{}" none ≡ ok (document parsed))
    × IsIngested whole feeds parsed "v1" ingests.0 empty ingests.1
ingest-IsIngested_example =
    ingest-IsIngested whole library readers hashing network settings feeds call officer payload
      empty ingests.1 ingests.0 ingests.2
