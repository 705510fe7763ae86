-- ===== src/ArchitectureRelations/Points.antt =====
-- The relations of the endpoints (indexing/relations.py).
use systemlens.Prelude.{Option, none, some, List, [], ◌∷◌, ◌++◌, if◌then◌else◌, ◌==◌, dedup, map}
use systemlens.Prelude.Dict.{Dict, get}
use systemlens.Text.{Text, text_eq, codes}
use systemlens.Text.Order.{sort, text_leb}
use systemlens.Models.{MessageEndpoint, ArchitectureRelation, kafka, produce, consume, serve, call}
use systemlens.DataOperations.Projection.{or_absent}
use systemlens.ArchitectureRelations.Relation.{
  RelationEvidence, Outside, relation_of, kind_or_module,
}

unfoldable pub evidence_of : Text → MessageEndpoint → RelationEvidence
evidence_of name e = record {
  origin = e.source;
  confidence = if e.topic_dynamic then codes "medium" else codes "high";
  in_module = some name;
  path = some e.path;
  start_line = some e.start_line;
  end_line = some e.end_line;
  qualified_name = e.qualified_name;
}

abbrev pub role_relations : Dict Text Text
role_relations =
    (produce, codes "publishes")
    ∷ (consume, codes "consumes")
    ∷ (serve, codes "provides")
    ∷ (call, codes "calls")
    ∷ []

module _ (o : Outside) (kinds : Dict Text Text) where
  unfoldable pub target_kind : MessageEndpoint → Text
  target_kind e = if e.system == kafka then codes "topic" else codes "api"

  -- The relations of the endpoint's class, if it has one.
  unfoldable pub class_relations : Text → MessageEndpoint → List ArchitectureRelation
  unfolding relation_of target_kind evidence_of or_absent
  class_relations name e = elim (or_absent e.qualified_name) [
    | none ↦ []
    | some c ↦
        relation_of o (codes "class") c (codes "implements") (target_kind e) e.topic
          (evidence_of name e)
        ∷ []
  ]

  -- The source of the relations of properties: the class, or the module.
  unfoldable pub property_source : Text → MessageEndpoint → Text × Text
  unfolding kind_or_module or_absent
  property_source name e = elim (or_absent e.qualified_name) [
    | none ↦ (kind_or_module kinds name, name)
    | some c ↦ (codes "class", c)
  ]

  unfoldable pub property_relations : Text → MessageEndpoint → List ArchitectureRelation
  unfolding relation_of property_source evidence_of
  property_relations name e =
      map
        (λ key.
          relation_of o (property_source name e).0 (property_source name e).1
            (codes "uses_configuration") (codes "property") key (evidence_of name e))
        (sort text_leb (dedup (o.property_keys e.snippet)))

  unfoldable pub type_relations : Text → MessageEndpoint → List ArchitectureRelation
  unfolding relation_of evidence_of or_absent
  type_relations name e =
      let relation = if e.role == produce then codes "publishes_type" else codes "consumes_type" in
      elim (or_absent e.message_type) [
        | none ↦ []
        | some type ↦
            if e.system == kafka
            then relation_of o (codes "topic") e.topic relation (codes "dto") type
                (evidence_of name e)
              ∷ []
            else []
      ]

  -- The body of the loop over the endpoints; `none` is a KeyError.
  unfoldable pub module_endpoint_relations :
      Option Text → MessageEndpoint → Option (List ArchitectureRelation)
  unfolding class_relations property_relations type_relations relation_of
  module_endpoint_relations none e = some []
  module_endpoint_relations (some name) e = elim (get role_relations e.role) [
    | none ↦ none
    | some relation ↦ some (
        relation_of o (kind_or_module kinds name) name relation (target_kind e) e.topic
            (evidence_of name e)
          ∷ class_relations name e
        ++ property_relations name e
        ++ type_relations name e)
  ]

  unfoldable pub endpoint_relations : MessageEndpoint → Option (List ArchitectureRelation)
  unfolding module_endpoint_relations
  endpoint_relations e = module_endpoint_relations e.in_module e
