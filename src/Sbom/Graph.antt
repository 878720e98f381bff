-- ===== src/Sbom/Graph.antt =====
-- services/sbom-service/app/services/graph.py: the view of the dependency graph and the vendors on critical paths.
-- Neo4j's rows come from outside, an empty list where it is down, and so do the measures of networkx, an empty
-- table where they raise; both are empty where one of them raises for the vendors on critical paths.
use sc_tpcrs.Prelude.{
  ℕ, zero, suc, ◌-◌, String, Bool, false, not, ◌&&◌, ◌||◌, Option, none, some, List, [], ◌∷◌, ◌++◌,
  map, ◌==◌, ltb, length, take, find_first, update_where, one_of, fstring, text_or, or_else,
  if◌then◌else◌,
}
use sc_tpcrs.Prelude.Floats.{Floats}
use sc_tpcrs.Prelude.Order.{sort_with}
use sc_tpcrs.Prelude.Groups.{group_from}

-- A row of the query.
pub record Row : Type 0 where
  pub vendor_id : String
  pub vendor_name : Option String
  pub tier : Option String
  pub purl : String
  pub comp_name : Option String
  pub cve_id : Option String
  pub severity : Option String

-- A node of the answer; `tier` is a vendor's and `severity` a vulnerability's.
pub record Node (F : Type 0) : Type 0 where
  pub id : String
  pub label : String
  pub name : String
  pub tier : Option String
  pub severity : Option String
  pub centrality : Option F
  pub critical_path : Option Bool

pub record Edge : Type 0 where
  pub source : String
  pub target : String
  pub edge_type : String

-- The variables of the loop; `pairs` are the edges of the undirected graph that networkx measures.
pub record View (F : Type 0) : Type 0 where
  pub nodes : List (Node F)
  pub edges : List Edge
  pub pairs : List (String × String)

abbrev pub same_edge : Edge → Edge → Bool
same_edge a b = a.source == b.source && (a.target == b.target && a.edge_type == b.edge_type)

abbrev pub has_edge : Edge → List Edge → Bool
has_edge e [] = false
has_edge e (f ∷ fs) = same_edge f e || has_edge e fs

-- `add_edge` with its set of the edges that were seen.
unfoldable pub add_edge : Edge → List Edge → List Edge
add_edge e edges = if has_edge e edges then edges else edges ++ e ∷ []

abbrev pub ids_of : {F : Type 0} → List (Node F) → List String
ids_of = map (λ (n : Node _). n.id)

-- `nodes.setdefault(n["id"], n)`.
unfoldable pub add_node : {F : Type 0} → Node F → List (Node F) → List (Node F)
add_node n nodes = if one_of n.id (ids_of nodes) then nodes else nodes ++ n ∷ []

-- `name or default`.
abbrev name_or : Option String → String → String
name_or name default = text_or (or_else name "") default

abbrev pub vendor_node : {F : Type 0} → Row → Node F
vendor_node r = record {
  id = fstring ("vendor:" ∷ r.vendor_id ∷ []);
  label = "Vendor";
  name = name_or r.vendor_name r.vendor_id;
  tier = r.tier;
  severity = none;
  centrality = none;
  critical_path = none;
}

abbrev pub component_node : {F : Type 0} → Row → Node F
component_node r = record {
  id = fstring ("component:" ∷ r.purl ∷ []);
  label = "SoftwareComponent";
  name = name_or r.comp_name r.purl;
  tier = none;
  severity = none;
  centrality = none;
  critical_path = none;
}

abbrev pub vulnerability_node : {F : Type 0} → Row → String → Node F
vulnerability_node r cve_id = record {
  id = fstring ("vuln:" ∷ cve_id ∷ []);
  label = "Vulnerability";
  name = cve_id;
  tier = none;
  severity = r.severity;
  centrality = none;
  critical_path = none;
}

abbrev pub edge : String → String → String → Edge
edge source target edge_type = record { source = source; target = target; edge_type = edge_type }

-- A node and an edge to it from a node that is there.
unfoldable pub link : {F : Type 0} → String → Node F → String → View F → View F
unfolding add_node add_edge
link source n edge_type v = record v {
  nodes = add_node n v.nodes;
  edges = add_edge (edge source n.id edge_type) v.edges;
}

unfoldable pub add_vulnerability : {F : Type 0} → Row → View F → View F
unfolding link
add_vulnerability r v = elim r.cve_id [
  | none ↦ v
  | some cve_id ↦
      if cve_id == ""
      then v
      else link (fstring ("component:" ∷ r.purl ∷ [])) (vulnerability_node r cve_id) "AT_RISK" v
]

-- One round of the loop over the rows.
unfoldable pub add_row : {F : Type 0} → Row → View F → View F
unfolding add_node link add_vulnerability
add_row r v =
    let vid = fstring ("vendor:" ∷ r.vendor_id ∷ []) in
    let with_vendor = record v {
      nodes = add_node (vendor_node r) v.nodes;
      pairs = v.pairs ++ (vid, fstring ("component:" ∷ r.purl ∷ [])) ∷ [];
    } in
    add_vulnerability r (link vid (component_node r) "PROVIDES" with_vendor)

unfoldable pub add_rows : {F : Type 0} → List Row → View F → View F
unfolding add_row
add_rows [] v = v
add_rows (r ∷ rows) v = add_rows rows (add_row r v)

abbrev add_id : String → List String → List String
add_id s ids = if one_of s ids then ids else ids ++ s ∷ []

-- The nodes of the undirected graph.
unfoldable pub graph_nodes : List (String × String) → List String → List String
graph_nodes [] seen = seen
graph_nodes ((a, b) ∷ pairs) seen = graph_nodes pairs (add_id b (add_id a seen))

pub record Measures (F : Type 0) : Type 0 where
  pub betweenness : List (String × String) → List (String × F)
  pub pagerank : List (String × String) → List (String × F)
  pub round4 : F → F

module _ (fl : Floats) where
  open fl use {F, literal, lt, le}

  abbrev score_of : String × F → F
  score_of e = e.1

  nth : ℕ → List F → F → F
  nth n [] default = default
  nth zero (x ∷ xs) default = x
  nth (suc n) (x ∷ xs) default = nth n xs default

  -- The third greatest score, or the least of fewer.
  unfoldable pub cutoff_of : List (String × F) → F
  unfolding nth
  cutoff_of centrality =
      let threshold = sort_with (λ a b. lt b a) (map score_of centrality) in
      nth (if ltb (length threshold - 1) 2 then length threshold - 1 else 2) threshold
        (literal "0.0")

  -- The loop over the scores; a node that is not in the view is skipped.
  unfoldable pub annotate : Measures F → F → List (String × F) → List (Node F) → List (Node F)
  annotate measures cutoff [] nodes = nodes
  annotate measures cutoff ((node_id, score) ∷ scores) nodes = annotate measures cutoff scores (
      update_where (λ (n : Node F). n.id == node_id)
        (λ n. record n {
          centrality = some (measures.round4 score);
          critical_path = some (le cutoff score && lt (literal "0.0") score);
        })
        nodes)

  unfoldable pub get_supply_chain_graph : Measures F → List Row → List (Node F) × List Edge
  unfolding add_rows graph_nodes annotate cutoff_of
  get_supply_chain_graph measures rows =
      let v : View F = add_rows rows (record { nodes = []; edges = []; pairs = [] }) in
      if ltb 2 (length (graph_nodes v.pairs []))
      then (
        (let centrality = measures.betweenness v.pairs in
            annotate measures (cutoff_of centrality) centrality v.nodes),
        v.edges,
      )
      else (v.nodes, v.edges)

  pub record CriticalVendor : Type 0 where
    pub vendor_id : String
    pub name : String
    pub betweenness : F
    pub pagerank : F
    pub dependent_component_count : ℕ

  score_or_zero : String → List (String × F) → F
  score_or_zero k scores = elim (find_first (λ (e : String × F). (e.0) == k) scores) [
    | none ↦ literal "0.0"
    | some e ↦ e.1
  ]

  distinct : List Row → List String → List String
  distinct [] seen = seen
  distinct (r ∷ rows) seen = distinct rows (if one_of r.purl seen then seen else r.purl ∷ seen)

  -- The last name that a row gives.
  last_name : List Row → String → String
  last_name [] name = name
  last_name (r ∷ rows) name = last_name rows (name_or r.vendor_name r.vendor_id)

  vendor_entry :
      Measures F → List (String × F) → List (String × F) → String × List Row → CriticalVendor
  unfolding score_or_zero distinct last_name
  vendor_entry measures betweenness pagerank (vendor_id, rows) =
      let vid = fstring ("vendor:" ∷ vendor_id ∷ []) in
      record {
        vendor_id = vendor_id;
        name = last_name rows vendor_id;
        betweenness = measures.round4 (score_or_zero vid betweenness);
        pagerank = measures.round4 (score_or_zero vid pagerank);
        dependent_component_count = length (distinct rows []);
      }

  -- The comparison of `(betweenness, pagerank)`, the greatest first.
  abbrev is_wider : CriticalVendor → CriticalVendor → Bool
  is_wider a b =
      lt b.betweenness a.betweenness
      || not (lt a.betweenness b.betweenness) && lt b.pagerank a.pagerank

  unfoldable pub get_critical_path_vendors : Measures F → ℕ → List Row → List CriticalVendor
  unfolding vendor_entry
  get_critical_path_vendors measures limit rows =
      let pairs =
        map
          (λ (r : Row).
            (fstring ("vendor:" ∷ r.vendor_id ∷ []), fstring ("component:" ∷ r.purl ∷ [])))
          rows in
      take limit (
        sort_with is_wider (
          map (vendor_entry measures (measures.betweenness pairs) (measures.pagerank pairs))
            (group_from ◌==◌ (λ (r : Row). r.vendor_id) rows [])))
