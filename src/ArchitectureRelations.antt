-- ===== src/ArchitectureRelations.antt =====
-- build_architecture_relations (indexing/relations.py): its loops in their order, and the relations of
-- the edges of build_graph.
pub mod Relation
pub mod Points
pub mod Inventory
pub mod Adding
pub mod Laws
pub mod Sites
pub mod Materialized
pub mod Roundtrip
pub mod Origin
pub mod Faithful
mod Examples
use systemlens.Prelude.{
  ℕ, Bool, true, false, ◌&&◌, ◌||◌, Option, none, some, List, [], ◌∷◌, ◌++◌, if◌then◌else◌, ◌==◌,
  dedup, flat_map, map,
}
use systemlens.Prelude.Dict.{Dict, get, put, values}
use systemlens.Prelude.Gather.{gather}
use systemlens.Text.{Text, text_eq, codes}
use systemlens.Text.Order.{sort, text_leb}
use systemlens.Models.{
  MessageEndpoint, ArchitectureRelation, kafka, rest, produce, consume, serve, call,
}
use systemlens.MessageTypes.{message_type_key}
use systemlens.MongoOperations.{Facet, mongo_facets}
use systemlens.DataOperations.Projection.{
  DiscoveredModule, JpaEntity, MongoMethod, module_identity, or_absent,
}
use systemlens.Graph.Paths.{Compile}
use systemlens.Graph.Targets.{RestTargetPolicy}
use systemlens.Graph.Edges.{GraphEdge}
use systemlens.Graph.Edges.Build.{Inputs, build_graph, group_endpoints_by_module}
use systemlens.ArchitectureRelations.Adding.{Relations, add_all, relation_order}
use systemlens.ArchitectureRelations.Relation.{
  ModuleDependency, RelationEvidence, Outside, relation_of, kind_of_module, module_kinds,
  kind_or_module, dependency_relation,
}
use systemlens.ArchitectureRelations.Points.{
  evidence_of, role_relations, target_kind, class_relations, property_source, property_relations,
  type_relations, module_endpoint_relations, endpoint_relations,
}
use systemlens.ArchitectureRelations.Inventory.{
  entity_relation, facet_relation, facet_relations, mongo_relations, module_relations,
}

is_unknown : Option Text → Bool
is_unknown type = elim (message_type_key type) [ none ↦ true | some key ↦ false ]

has_unknown_type : GraphEdge → Bool
unfolding is_unknown
has_unknown_type edge = elim edge.to_endpoint [
  | none ↦ true
  | some target ↦ is_unknown edge.from_endpoint.message_type || is_unknown target.message_type
]

unfoldable pub edge_confidence : GraphEdge → Text
unfolding has_unknown_type
edge_confidence edge =
    if edge.from_endpoint.topic_dynamic
    then codes "medium"
    else if edge.kind == kafka && has_unknown_type edge
    then codes "medium"
    else codes "high"

unfoldable pub edge_evidence : GraphEdge → RelationEvidence
unfolding edge_confidence
edge_evidence edge = record {
  origin = edge.from_endpoint.source;
  confidence = edge_confidence edge;
  in_module = some edge.from_service;
  path = some edge.from_endpoint.path;
  start_line = some edge.from_endpoint.start_line;
  end_line = some edge.from_endpoint.end_line;
  qualified_name = edge.from_endpoint.qualified_name;
}

unfoldable pub edge_relation : Outside → GraphEdge → ArchitectureRelation
unfolding relation_of edge_evidence
edge_relation o edge =
    relation_of o (codes "microservice") edge.from_service
      (if edge.kind == rest then codes "calls_service" else codes "publishes_to")
      (codes "microservice") edge.to_service (edge_evidence edge)

unfoldable pub all_relations :
    Outside
    → List DiscoveredModule
    → List ModuleDependency
    → List ArchitectureRelation
    → Inputs
    → List ArchitectureRelation
unfolding dependency_relation module_relations edge_relation module_kinds
all_relations o modules dependencies of_endpoints b =
    let kinds = module_kinds [] modules in
    map (dependency_relation o kinds) dependencies
    ++ (of_endpoints
        ++ (flat_map (module_relations o kinds) modules ++ map (edge_relation o) (build_graph b)))

-- service_aliases
unfoldable pub service_aliases :
    Outside → Dict Text (List Text) → List DiscoveredModule → Dict Text (List Text)
unfolding module_identity
service_aliases o d [] = d
service_aliases o d (m ∷ ms) =
    service_aliases o (put d (module_identity m) (o.application_names m)) ms

-- What build_graph is called with; `rest_policy` is the policy that kafka_reply_strategy1
-- selects.
unfoldable pub graph_inputs :
    Outside → List DiscoveredModule → List MessageEndpoint → RestTargetPolicy → Inputs
unfolding service_aliases
graph_inputs o modules endpoints rest_policy = record {
  compile = o.compile;
  rest_policy = rest_policy;
  service_aliases = service_aliases o [] modules;
  endpoints_by_service = group_endpoints_by_module [] endpoints;
}

-- The relations in the order in which the loops add them; the loop over the endpoints may raise.
unfoldable pub build_architecture_relations :
    Outside
    → List DiscoveredModule
    → List MessageEndpoint
    → List ModuleDependency
    → RestTargetPolicy
    → Option (List ArchitectureRelation)
unfolding endpoint_relations all_relations module_kinds graph_inputs
build_architecture_relations o modules endpoints dependencies rest_policy =
    let b = graph_inputs o modules endpoints rest_policy in
    elim (gather (endpoint_relations o (module_kinds [] modules)) endpoints) [
      | none ↦ none
      | some of_endpoints ↦
          elim (add_all o.digest [] (all_relations o modules dependencies of_endpoints b)) [
            | none ↦ none
            | some relations ↦ some (sort relation_order (values relations))
          ]
    ]
