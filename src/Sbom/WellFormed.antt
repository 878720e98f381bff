-- ===== src/Sbom/WellFormed.antt =====
-- The view of the dependency graph is a graph: no node and no edge is listed twice, and no edge dangles.
use sc_tpcrs.Prelude.{
  String, ◌≡◌, refl, ◌∙◌, inl, inr, true, false, List, [], ◌∷◌, ◌++◌, ◌==◌, All, All-append, one_of,
  fstring, Bool-cases, Option-cases, eq_refl, ltb, length,
}
use mathlib.Core.List.{map-append}
use sc_tpcrs.Prelude.Floats.{Floats}
use sc_tpcrs.Prelude.Distinct.{Distinct, Distinct-append, str_eq_sym}
use sc_tpcrs.Prelude.Keyed.{map-update_where}
use sc_tpcrs.Sbom.Graph.{
  vendor_node, component_node, vulnerability_node, graph_nodes, cutoff_of, Row, Node, Edge, View,
  same_edge, has_edge, add_edge, ids_of, add_node, edge, link, add_vulnerability, add_row, add_rows,
  Measures, annotate, get_supply_chain_graph,
}

-- Edges that all differ.
abbrev pub AllDiffer : List Edge → Type 0
AllDiffer [] = Unit
AllDiffer (e ∷ es) = All (λ f. same_edge e f ≡ false) es × AllDiffer es

-- Both ends of the edge are nodes.
abbrev pub IsJoined : List String → Edge → Type 0
IsJoined ids e = (one_of e.source ids ≡ true) × (one_of e.target ids ≡ true)

pub record IsGraph {F : Type 0} (nodes : List (Node F)) (edges : List Edge) : Type 0 where
  pub distinct : Distinct (ids_of nodes)
  pub differ : AllDiffer edges
  pub joined : All (IsJoined (ids_of nodes)) edges

fresh-All : (k : String) (xs : List String) → one_of k xs ≡ false → All (λ x. (x == k) ≡ false) xs
fresh-All k [] h = tt
fresh-All k (x ∷ xs) h = elim (Bool-cases (k == x)) [
  | inl same ↦ cc (rw same at h)
  | inr other ↦ (str_eq_sym x k ∙ other, fresh-All k xs (rw other at h))
]

one_of-append_left :
    (k : String) (xs ys : List String) → one_of k xs ≡ true → one_of k (xs ++ ys) ≡ true
one_of-append_left k [] ys h = cc
one_of-append_left k (x ∷ xs) ys h = elim (Bool-cases (k == x)) [
  | inl same ↦ rw same refl
  | inr other ↦ rw other (one_of-append_left k xs ys (rw other at h))
]

one_of-append_new : (k : String) (xs : List String) → one_of k (xs ++ k ∷ []) ≡ true
one_of-append_new k [] = rw (eq_refl k) refl
one_of-append_new k (x ∷ xs) = elim (Bool-cases (k == x)) [
  | inl same ↦ rw same refl
  | inr other ↦ rw other (one_of-append_new k xs)
]

module _ {F : Type 0} where
  -- What adding a node does to the identifiers.
  record Added (n : Node F) (nodes nodes' : List (Node F)) : Type 0 where
    distinct : Distinct (ids_of nodes) → Distinct (ids_of nodes')
    kept : (k : String) → one_of k (ids_of nodes) ≡ true → one_of k (ids_of nodes') ≡ true
    there : one_of n.id (ids_of nodes') ≡ true

  add_node-Added : (n : Node F) (nodes : List (Node F)) → Added n nodes (add_node n nodes)
  unfolding add_node
  add_node-Added n nodes = elim (Bool-cases (one_of n.id (ids_of nodes))) [
    | inl old ↦ rw old (record { distinct = λ d. d; kept = λ k h. h; there = old })
    | inr new ↦
        let joined : ids_of (nodes ++ n ∷ []) ≡ ids_of nodes ++ n.id ∷ [] =
          map-append (λ (m : Node F). m.id) nodes (n ∷ []) in
        rw new (record {
          distinct = λ d.
              rw joined (Distinct-append (ids_of nodes) n.id (fresh-All n.id (ids_of nodes) new) d);
          kept = λ k h. rw joined (one_of-append_left k (ids_of nodes) (n.id ∷ []) h);
          there = rw joined (one_of-append_new n.id (ids_of nodes));
        })
  ]

AllDiffer-append :
    (es : List Edge) (e : Edge) → has_edge e es ≡ false → AllDiffer es → AllDiffer (es ++ e ∷ [])
AllDiffer-append [] e h d = (tt, tt)
AllDiffer-append (f ∷ fs) e h d = elim (Bool-cases (same_edge f e)) [
  | inl same ↦ cc (rw same at h)
  | inr other ↦ (
    All-append (λ g. same_edge f g ≡ false) fs (e ∷ []) d.0 (other, tt),
    AllDiffer-append fs e (rw other at h) d.1,
  )
]

add_edge-AllDiffer : (e : Edge) (es : List Edge) → AllDiffer es → AllDiffer (add_edge e es)
unfolding add_edge
add_edge-AllDiffer e es d = elim (Bool-cases (has_edge e es)) [
  | inl old ↦ rw old d
  | inr new ↦ rw new (AllDiffer-append es e new d)
]

add_edge-All :
    (P : Edge → Type 0) (e : Edge) (es : List Edge) → P e → All P es → All P (add_edge e es)
unfolding add_edge
add_edge-All P e es p h = elim (Bool-cases (has_edge e es)) [
  | inl old ↦ rw old h
  | inr new ↦ rw new (All-append P es (e ∷ []) h (p, tt))
]

All-weaken :
    {P Q : Edge → Type 0} → ((e : Edge) → P e → Q e) → (es : List Edge) → All P es → All Q es
All-weaken f [] h = tt
All-weaken f (e ∷ es) h = (f e h.0, All-weaken f es h.1)

module _ {F : Type 0} where
  -- A step of the loop keeps the view a graph, and every node in it.
  record Grown (v v' : View F) : Type 0 where
    graph : IsGraph v'.nodes v'.edges
    kept : (k : String) → one_of k (ids_of v.nodes) ≡ true → one_of k (ids_of v'.nodes) ≡ true

  rejoined :
      (n : Node F) (nodes : List (Node F)) (es : List Edge)
      → All (IsJoined (ids_of nodes)) es
      → All (IsJoined (ids_of (add_node n nodes))) es
  rejoined n nodes es h =
      let added = add_node-Added n nodes in
      All-weaken (λ e j. (added.kept e.source j.0, added.kept e.target j.1)) es h

  link-Grown :
      (source : String) (n : Node F) (edge_type : String) (v : View F)
      → IsGraph v.nodes v.edges
      → one_of source (ids_of v.nodes) ≡ true
      → Grown v (link source n edge_type v)
        × (one_of n.id (ids_of (link source n edge_type v).nodes) ≡ true)
  unfolding link
  link-Grown source n edge_type v g from =
      let added = add_node-Added n v.nodes in
      (
        record {
          graph = record {
            distinct = added.distinct g.distinct;
            differ = add_edge-AllDiffer (edge source n.id edge_type) v.edges g.differ;
            joined =
                add_edge-All (IsJoined (ids_of (add_node n v.nodes))) (edge source n.id edge_type)
                  v.edges (added.kept source from, added.there)
                  (rejoined n v.nodes v.edges g.joined);
          };
          kept = added.kept;
        },
        added.there,
      )

  Grown-trans : (u v w : View F) → Grown u v → Grown v w → Grown u w
  Grown-trans u v w a b = record { graph = b.graph; kept = λ k h. b.kept k (a.kept k h) }

  add_vulnerability-Grown :
      (r : Row) (v : View F)
      → IsGraph v.nodes v.edges
      → one_of (fstring ("component:" ∷ r.purl ∷ [])) (ids_of v.nodes) ≡ true
      → Grown v (add_vulnerability r v)
  unfolding add_vulnerability
  add_vulnerability-Grown r v g here = elim (Option-cases r.cve_id) [
    | inl safe ↦ rw (safe, add_vulnerability) (record { graph = g; kept = λ k h. h })
    | inr (cve, at_risk) ↦ elim (Bool-cases (cve == "")) [
      | inl blank ↦ rw (at_risk, add_vulnerability, blank) (record { graph = g; kept = λ k h. h })
      | inr named ↦
          rw (at_risk, add_vulnerability, named)
            ((link-Grown (fstring ("component:" ∷ r.purl ∷ [])) (vulnerability_node r cve) "AT_RISK"
              v g here).0)
    ]
  ]

  add_row-Grown : (r : Row) (v : View F) → IsGraph v.nodes v.edges → Grown v (add_row r v)
  unfolding add_row
  add_row-Grown r v g =
      let vid = fstring ("vendor:" ∷ r.vendor_id ∷ []) in
      let added = add_node-Added (vendor_node r) v.nodes in
      let with_vendor : View F = record v {
        nodes = add_node (vendor_node r) v.nodes;
        pairs = v.pairs ++ (vid, fstring ("component:" ∷ r.purl ∷ [])) ∷ [];
      } in
      let first : Grown v with_vendor = record {
        graph = record {
          distinct = added.distinct g.distinct;
          differ = g.differ;
          joined = rejoined (vendor_node r) v.nodes v.edges g.joined;
        };
        kept = added.kept;
      } in
      let second =
        link-Grown vid (component_node r) "PROVIDES" with_vendor first.graph added.there in
      Grown-trans v with_vendor _ first (
        Grown-trans with_vendor (link vid (component_node r) "PROVIDES" with_vendor) _ second.0 (
          add_vulnerability-Grown r (link vid (component_node r) "PROVIDES" with_vendor)
            (second.0).graph second.1))

  add_rows-IsGraph :
      (rows : List Row) (v : View F)
      → IsGraph v.nodes v.edges
      → IsGraph (add_rows rows v).nodes (add_rows rows v).edges
  unfolding add_rows
  add_rows-IsGraph [] v g = g
  add_rows-IsGraph (r ∷ rows) v g = add_rows-IsGraph rows (add_row r v) (add_row-Grown r v g).graph

module _ (fl : Floats) where
  open fl use {F}

  -- The measures change no identifier.
  ids-annotate :
      (measures : Measures F) (cutoff : F) (scores : List (String × F)) (nodes : List (Node F))
      → ids_of (annotate fl measures cutoff scores nodes) ≡ ids_of nodes
  unfolding annotate
  ids-annotate measures cutoff [] nodes = refl
  ids-annotate measures cutoff (s ∷ scores) nodes =
      ids-annotate measures cutoff scores _
      ∙ map-update_where (λ (n : Node F). n.id) (λ n. n.id == s.0) _ (λ n. refl) nodes

  -- Whatever rows Neo4j gives and whatever networkx measures, the answer lists no node and no edge
  -- twice, and both ends of every edge are among its nodes.
  pub get_supply_chain_graph-IsGraph :
      (measures : Measures F) (rows : List Row)
      → IsGraph
          (get_supply_chain_graph fl measures rows).0
          (get_supply_chain_graph fl measures rows).1
  unfolding get_supply_chain_graph
  get_supply_chain_graph-IsGraph measures rows =
      let empty : View F = record { nodes = []; edges = []; pairs = [] } in
      let v = add_rows rows empty in
      let g : IsGraph v.nodes v.edges =
        add_rows-IsGraph rows empty (record { distinct = tt; differ = tt; joined = tt }) in
      elim (Bool-cases (ltb 2 (length (graph_nodes v.pairs [])))) [
        | inl measured ↦
            let same =
              ids-annotate measures (cutoff_of fl (measures.betweenness v.pairs))
                (measures.betweenness v.pairs) v.nodes in
            rw measured (record {
              distinct = rw same g.distinct;
              differ = g.differ;
              joined = rw same g.joined;
            })
        | inr small ↦ rw small g
      ]
