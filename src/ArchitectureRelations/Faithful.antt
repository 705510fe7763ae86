-- ===== src/ArchitectureRelations/Faithful.antt =====
-- What graph_edges_from_relations (domain/graph.py) reads back rests on the graph: the converse of
-- Roundtrip, for the relations of indexing/relations.py.
use mathlib.Core.Logic.{⊎_elim}
use systemlens.Prelude.{◌≡◌, sym, ap, ◌∙◌, subst, true, some, List, [], Memᴰ, inl, inr}
use systemlens.Text.{text_eq}
use systemlens.Models.{MessageEndpoint, ArchitectureRelation}
use systemlens.DataOperations.Projection.{DiscoveredModule}
use systemlens.Graph.Targets.{RestTargetPolicy}
use systemlens.Graph.Edges.{GraphEdge}
use systemlens.Graph.Edges.Build.{Endpoints, Inputs, build_graph, group_endpoints_by_module}
use systemlens.Graph.Edges.Sound.{build_graph-Emits}
use systemlens.Graph.Relations.{connects_services, graph_edges_from_relations}
use systemlens.Graph.Relations.Laws.{Asserts, relations_sound}
use systemlens.ArchitectureRelations.Relation.{ModuleDependency, Outside, relation_of, module_kinds}
use systemlens.ArchitectureRelations.Points.{endpoint_relations}
use systemlens.ArchitectureRelations.{
  edge_evidence, edge_relation, graph_inputs, build_architecture_relations,
}
use systemlens.ArchitectureRelations.Laws.{Copies}
use systemlens.ArchitectureRelations.Sites.{StartsAt, starts_at, grouped_sites}
use systemlens.ArchitectureRelations.Materialized.{
  HasRoles, Fact, Fact.depends, Fact.endpoint, Fact.inventory, Fact.connects, Materializes,
  build_architecture_relations_total,
}
use systemlens.ArchitectureRelations.Roundtrip.{edge_asserted}
use systemlens.ArchitectureRelations.Origin.{
  LeadsAway-connects, endpoint-LeadsAway, inventory-LeadsAway, depends-connects,
}

connects_copy :
    (a r : ArchitectureRelation)
    → Copies a r
    → connects_services r ≡ true
    → connects_services a ≡ true
unfolding connects_services
connects_copy a r c t = sym (ap connects_services c) ∙ t

some_injective {ℓ} : {A : Type ℓ} {x y : A} → some x ≡ some y → x ≡ y
some_injective q = cc

-- An edge that rests on the evidence of another one.
pub record SameEvidence (e found : GraphEdge) : Type 0 where
  pub kind : found.kind ≡ e.kind
  pub from : found.from_service ≡ e.from_service
  pub to : found.to_service ≡ e.to_service
  pub path : found.from_endpoint.path ≡ e.from_endpoint.path
  pub line : found.from_endpoint.start_line ≡ e.from_endpoint.start_line

module _ (o : Outside) (modules : List DiscoveredModule) (endpoints : List MessageEndpoint)
    (dependencies : List ModuleDependency) (rest_policy : RestTargetPolicy) where
  abbrev b : Inputs
  b = graph_inputs o modules endpoints rest_policy

  abbrev d : Endpoints
  d = group_endpoints_by_module [] endpoints

  -- Of the facts only the edges of the graph give relations that connect services.
  fact_edge :
      (r : ArchitectureRelation)
      → Fact o modules endpoints dependencies rest_policy r
      → connects_services r ≡ true
      → (e : GraphEdge) × (Memᴰ e (build_graph b) × (r ≡ edge_relation o e))
  unfolding endpoint_relations
  fact_edge r (depends x m q) c =
      absurd (depends-connects o (module_kinds [] modules) x (ap connects_services (sym q) ∙ c))
  fact_edge r (endpoint e rs m q n) c = absurd (
      LeadsAway-connects r (endpoint-LeadsAway o (module_kinds [] modules) e rs r e.in_module q n)
        c)
  fact_edge r (inventory m at n) c =
      absurd (LeadsAway-connects r (inventory-LeadsAway o (module_kinds [] modules) m r n) c)
  fact_edge r (connects e m q) c = (e, (m, q))

  edge_of_relation :
      (r : ArchitectureRelation) (e found : GraphEdge)
      → StartsAt d e
      → Copies (edge_relation o e) r
      → Asserts o.compile d r found
      → SameEvidence e found
  unfolding edge_relation relation_of edge_evidence
  edge_of_relation r e found at c a =
      let (connected, kind) =
        edge_asserted o e r c (⊎_elim (λ k. inl k.0) (λ k. inr k.0) at.kind) in
      record {
        kind = a.kind ∙ kind;
        from = a.from ∙ ap (λ (x : ArchitectureRelation). x.source_name) c;
        to = a.to ∙ ap (λ (x : ArchitectureRelation). x.target_name) c;
        path = some_injective (a.source.path ∙ ap (λ (x : ArchitectureRelation). x.path) c);
        line = some_injective (a.source.line ∙ ap (λ (x : ArchitectureRelation). x.start_line) c);
      }

  -- For endpoints of the four roles, an edge that is read back from the relations that were built
  -- rests on an edge of the graph: one of its kind, between its services, whose source endpoint
  -- stands at the same file and line.
  pub relations_faithful :
      (rs : List ArchitectureRelation) (found : GraphEdge)
      → HasRoles endpoints
      → build_architecture_relations o modules endpoints dependencies rest_policy ≡ some rs
      → Memᴰ found (graph_edges_from_relations o.compile d rs)
      → (e : GraphEdge) × (Memᴰ e (build_graph b) × SameEvidence e found)
  unfolding graph_inputs
  relations_faithful rs found roles h m =
      let (built, (made, made_all)) =
        build_architecture_relations_total o modules endpoints dependencies rest_policy roles in
      let same : built ≡ rs = some_injective (sym made ∙ h) in
      let all = subst (Materializes o modules endpoints dependencies rest_policy) same made_all in
      let (r, (n, a)) = relations_sound o.compile d rs found m in
      let (r0, (fact, c)) = all.evidence r n in
      let (e, (there, q)) = fact_edge r0 fact (connects_copy r0 r c a.connects) in
      let (k, emits) = build_graph-Emits b e there in
      (
        e,
        (
          there,
          edge_of_relation r e found (starts_at b (grouped_sites endpoints) k e emits)
              (subst (λ x. Copies x r) q c) a,
        ),
      )
