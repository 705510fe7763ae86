-- ===== src/ArchitectureRelations/Examples.antt =====
-- The relations of an orders service that publishes what a billing service consumes
-- (indexing/relations.py).
use mathlib.Core.List.Memᴰ
use mathlib.Core.Logic.{⊎_elim}
use systemlens.Prelude.{
  ◌≡◌, refl, ap, true, false, none, some, List, [], ◌∷◌, Memᴰ, filter, contains, dedup, dedup_from,
}
use systemlens.Prelude.Dict.{group, group_all, push}
use systemlens.Text.{Text, text_eq, text_beq, codes}
use systemlens.Models.{MessageEndpoint, ArchitectureRelation, kafka, produce, consume}
use systemlens.MessageTypes.{message_types_conflict}
use systemlens.DataOperations.Projection.{DiscoveredModule}
use systemlens.Graph.Targets.{default_rest_target_policy}
use systemlens.Graph.Edges.{GraphEdge, emit}
use systemlens.Graph.Edges.Build.{
  edge_of, group_endpoints_by_module, all_endpoints, is_rest, calls_of, manifest_services,
  kafka_endpoints, produces_of, consumes_by_topic, consume_step, produce_step, build_graph,
}
use systemlens.Graph.Relations.{graph_edges_from_relations}
use systemlens.ArchitectureRelations.Relation.{ModuleDependency, Outside}
use systemlens.ArchitectureRelations.{graph_inputs, build_architecture_relations}
use systemlens.ArchitectureRelations.Materialized.{
  HasRoles, Materializes, build_architecture_relations_total,
}
use systemlens.ArchitectureRelations.Roundtrip.{SameConnection, relations_roundtrip}
use systemlens.ArchitectureRelations.Faithful.{SameEvidence, relations_faithful}

abbrev outside : Outside
outside = record {
  identify = λ source_kind source_name relation target_kind target_name path line. relation;
  digest = λ r. r.source_name;
  property_keys = λ snippet. [];
  locate = λ m path. path;
  application_names = λ m. [];
  compile = λ pattern. none;
}

abbrev orders : DiscoveredModule
orders = record {
  name = codes "orders";
  identity = [];
  starts_application = true;
  mongo_methods = [];
  jpa_entities = [];
  jpa_methods = [];
  data_operations = [];
}

abbrev uses_billing : ModuleDependency
uses_billing = record { source = codes "orders"; target = codes "billing" }

abbrev point : Text → Text → Text → MessageEndpoint
point id role in_module = record {
  id = id;
  role = role;
  system = kafka;
  topic = codes "paid";
  topic_dynamic = false;
  source = codes "code";
  framework = none;
  path = codes "A.java";
  start_line = 7;
  end_line = 9;
  snippet = [];
  in_module = some in_module;
  qualified_name = none;
  message_type = none;
  topic_display = none;
}

abbrev published : MessageEndpoint
published = point (codes "p") produce (codes "orders")

abbrev consumed : MessageEndpoint
consumed = point (codes "c") consume (codes "billing")

abbrev points : List MessageEndpoint
points = published ∷ consumed ∷ []

points-HasRoles : HasRoles points
points-HasRoles e m =
    ⊎_elim (λ q. Memᴰ.head (ap (λ (x : MessageEndpoint). x.role) q))
      (λ n. Memᴰ.tail (Memᴰ.head (ap (λ (x : MessageEndpoint). x.role) (Memᴰ.eq_of_singleton n))))
      (Memᴰ.cases_cons m)

abbrev paid : GraphEdge
paid = edge_of kafka (codes "orders") (codes "billing") published (some consumed)

paid_there :
    Memᴰ paid (build_graph (graph_inputs outside (orders ∷ []) points default_rest_target_policy))
unfolding graph_inputs build_graph group_endpoints_by_module push all_endpoints is_rest calls_of
    manifest_services kafka_endpoints produces_of consumes_by_topic consume_step produce_step emit
    filter contains dedup dedup_from group group_all text_beq message_types_conflict
paid_there = Memᴰ.head refl

build_architecture_relations_total_example :
    (rs : List ArchitectureRelation) × ((build_architecture_relations outside
          (orders ∷ [])
          points
          (uses_billing ∷ [])
          default_rest_target_policy
        ≡ some rs)
      × Materializes outside (orders ∷ []) points (uses_billing ∷ []) default_rest_target_policy rs)
build_architecture_relations_total_example =
    build_architecture_relations_total outside (orders ∷ []) points (uses_billing ∷ [])
      default_rest_target_policy points-HasRoles

relations_roundtrip_example :
    (rs : List ArchitectureRelation) × ((build_architecture_relations outside
          (orders ∷ [])
          points
          (uses_billing ∷ [])
          default_rest_target_policy
        ≡ some rs)
      × ((found : GraphEdge) × (Memᴰ found
              (graph_edges_from_relations outside.compile (group_endpoints_by_module [] points) rs)
            × SameConnection paid found)))
relations_roundtrip_example =
    relations_roundtrip outside (orders ∷ []) points (uses_billing ∷ []) default_rest_target_policy
      paid points-HasRoles paid_there

abbrev read_back :
    (rs : List ArchitectureRelation) × ((build_architecture_relations outside
          (orders ∷ [])
          points
          (uses_billing ∷ [])
          default_rest_target_policy
        ≡ some rs)
      × ((found : GraphEdge) × (Memᴰ found
              (graph_edges_from_relations outside.compile (group_endpoints_by_module [] points) rs)
            × SameConnection paid found)))
read_back =
    relations_roundtrip outside (orders ∷ []) points (uses_billing ∷ []) default_rest_target_policy
      paid points-HasRoles paid_there

relations_faithful_example :
    (e : GraphEdge) × (Memᴰ e
        (build_graph (graph_inputs outside (orders ∷ []) points default_rest_target_policy))
      × SameEvidence e read_back.1.1.0)
relations_faithful_example =
    relations_faithful outside (orders ∷ []) points (uses_billing ∷ []) default_rest_target_policy
      read_back.0 read_back.1.1.0 points-HasRoles read_back.1.0 read_back.1.1.1.0
