-- ===== src/ArchitectureRelations/Roundtrip.antt =====
-- What graph_edges_from_relations (domain/graph.py) reads back from the relations that
-- build_architecture_relations (indexing/relations.py) makes of the edges of build_graph.
use mathlib.Core.Logic.{⊎_elim}
use systemlens.Prelude.{◌≡◌, refl, sym, ap, ◌∙◌, subst, true, some, List, [], Memᴰ, inl, inr, ◌⊎◌}
use systemlens.Text.{Text, text_eq, text_beq}
use systemlens.Models.{MessageEndpoint, ArchitectureRelation, rest, kafka, call, produce}
use systemlens.DataOperations.Projection.{DiscoveredModule}
use systemlens.Graph.Targets.{RestTargetPolicy}
use systemlens.Graph.Edges.{GraphEdge}
use systemlens.Graph.Edges.Build.{Inputs, Endpoints, build_graph, group_endpoints_by_module}
use systemlens.Graph.Edges.Sound.{build_graph-Emits}
use systemlens.Graph.Relations.{connects_services, kind_of, role_of, graph_edges_from_relations}
use systemlens.Graph.Relations.Sites.{IsIndexed}
use systemlens.Graph.Relations.Laws.{relations_complete}
use systemlens.ArchitectureRelations.Relation.{ModuleDependency, Outside, relation_of}
use systemlens.ArchitectureRelations.{
  edge_evidence, edge_relation, graph_inputs, build_architecture_relations,
}
use systemlens.ArchitectureRelations.Laws.{Copies}
use systemlens.ArchitectureRelations.Sites.{StartsAt, starts_at, grouped_sites}
use systemlens.ArchitectureRelations.Materialized.{
  HasRoles, Fact.connects, build_architecture_relations_total,
}

-- The persisted relation of an edge is one between services, and names the kind of the edge.
pub edge_asserted :
    (o : Outside) (e : GraphEdge) (s : ArchitectureRelation)
    → Copies (edge_relation o e) s
    → (e.kind ≡ rest) ⊎ (e.kind ≡ kafka)
    → (connects_services s ≡ true) × (kind_of s ≡ e.kind)
unfolding edge_relation relation_of connects_services kind_of text_beq
edge_asserted o e s c (inl k) = rw c (rw k (refl, refl))
edge_asserted o e s c (inr k) = rw c (rw k (refl, refl))

site_role :
    (s : ArchitectureRelation) (role kind : Text)
    → kind_of s ≡ kind
    → ((kind ≡ rest) × (role ≡ call)) ⊎ ((kind ≡ kafka) × (role ≡ produce))
    → role ≡ role_of s
unfolding role_of text_beq
site_role s role kind q (inl (k, r)) = rw (q, k) r
site_role s role kind q (inr (k, r)) = rw (q, k) r

-- An edge as another one, but for the target and the topic.
pub record SameConnection (e found : GraphEdge) : Type 0 where
  pub kind : found.kind ≡ e.kind
  pub from : found.from_service ≡ e.from_service
  pub to : found.to_service ≡ e.to_service
  pub start : found.from_endpoint.id ≡ e.from_endpoint.id

module _ (o : Outside) (modules : List DiscoveredModule) (endpoints : List MessageEndpoint)
    (dependencies : List ModuleDependency) (rest_policy : RestTargetPolicy) where
  abbrev b : Inputs
  b = graph_inputs o modules endpoints rest_policy

  abbrev d : Endpoints
  d = group_endpoints_by_module [] endpoints

  edge_found :
      (rs : List ArchitectureRelation) (e : GraphEdge) (s : ArchitectureRelation)
      → StartsAt d e
      → Memᴰ s rs
      → Copies (edge_relation o e) s
      → (found : GraphEdge) × (Memᴰ found (graph_edges_from_relations o.compile d rs)
          × SameConnection e found)
  unfolding edge_relation relation_of edge_evidence role_of
  edge_found rs e s at m c =
      let (asserted, kind) = edge_asserted o e s c (⊎_elim (λ k. inl k.0) (λ k. inr k.0) at.kind) in
      let (found, (n, (k, (f, (t, i))))) =
        relations_complete o.compile d rs s at.site m asserted (record {
          indexed = subst (λ x. IsIndexed d x at.site) (sym (ap (λ x. x.source_name) c)) at.indexed;
          path = ap some at.path ∙ sym (ap (λ x. x.path) c);
          line = ap some at.line ∙ sym (ap (λ x. x.start_line) c);
          role = site_role s at.site.role e.kind kind at.kind;
        }) in
      (
        found,
        (
          n,
          record {
            kind = k ∙ kind;
            from = f ∙ ap (λ x. x.source_name) c;
            to = t ∙ ap (λ x. x.target_name) c;
            start = i ∙ at.id;
          },
        ),
      )

  -- For endpoints of the four roles the relations are built, and the edges that are read back from them keep the connection of each edge
  -- of the graph: one of them is of its kind, between its services, and starts at an endpoint of
  -- its id.
  pub relations_roundtrip :
      (e : GraphEdge)
      → HasRoles endpoints
      → Memᴰ e (build_graph b)
      → (rs : List ArchitectureRelation) × ((build_architecture_relations o modules endpoints
              dependencies rest_policy
            ≡ some rs)
          × ((found : GraphEdge) × (Memᴰ found (graph_edges_from_relations o.compile d rs)
                × SameConnection e found)))
  unfolding graph_inputs
  relations_roundtrip e roles m =
      let (rs, (made, all)) =
        build_architecture_relations_total o modules endpoints dependencies rest_policy roles in
      let (k, emits) = build_graph-Emits b e m in
      let (s, (n, c)) = all.stored (edge_relation o e) (connects e m refl) in
      (rs, (made, edge_found rs e s (starts_at b (grouped_sites endpoints) k e emits) n c))
