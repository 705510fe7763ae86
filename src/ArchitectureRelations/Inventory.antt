-- ===== src/ArchitectureRelations/Inventory.antt =====
-- The relations of the entities and the Mongo calls of the modules (indexing/relations.py).
use systemlens.Prelude.{none, some, List, [], ◌∷◌, ◌++◌, flat_map, map}
use systemlens.Prelude.Dict.{Dict}
use systemlens.Text.{Text, text_eq, codes}
use systemlens.Models.{ArchitectureRelation}
use systemlens.MongoOperations.{Facet, mongo_facets}
use systemlens.DataOperations.Projection.{
  DiscoveredModule, JpaEntity, MongoMethod, module_identity, or_absent,
}
use systemlens.ArchitectureRelations.Relation.{
  RelationEvidence, Outside, relation_of, kind_or_module,
}

module _ (o : Outside) (kinds : Dict Text Text) where
  unfoldable pub entity_relation : DiscoveredModule → JpaEntity → ArchitectureRelation
  unfolding relation_of kind_or_module module_identity
  entity_relation m entity =
      relation_of o (kind_or_module kinds (module_identity m)) (module_identity m) (codes "maps")
        (codes "jpa_entity") entity.qualified_name
        (record {
          origin = codes "code";
          confidence = codes "high";
          in_module = some (module_identity m);
          path = some entity.path;
          start_line = some entity.line;
          end_line = some entity.line;
          qualified_name = some entity.qualified_name;
        })

  unfoldable pub facet_relation : Facet → Text
  facet_relation Facet.writes = codes "writes"
  facet_relation Facet.reads = codes "reads"

  unfoldable pub facet_relations :
      DiscoveredModule → MongoMethod → Text → Facet → List ArchitectureRelation
  unfolding relation_of facet_relation kind_or_module module_identity or_absent
  facet_relations m method collection facet =
      let evidence : RelationEvidence = record {
        origin = codes "code";
        confidence = codes "high";
        in_module = some (module_identity m);
        path = some (o.locate m method.path);
        start_line = some method.line;
        end_line = some method.line;
        qualified_name = none;
      } in
      relation_of o (kind_or_module kinds (module_identity m)) (module_identity m)
        (facet_relation facet) (codes "collection") collection evidence
      ∷ elim (or_absent method.owner_method) [
        | none ↦ []
        | some owner ↦
            relation_of o (codes "method") (module_identity m ++ codes ":" ++ owner)
              (facet_relation facet) (codes "collection") collection evidence
            ∷ []
      ]

  -- mongo_facets lists the facets in the order of their words.
  unfoldable pub mongo_relations : DiscoveredModule → MongoMethod → List ArchitectureRelation
  unfolding facet_relations or_absent
  mongo_relations m method = elim (or_absent method.collection) [
    | none ↦ []
    | some collection ↦
        flat_map (facet_relations m method collection) (mongo_facets method.operation)
  ]

  unfoldable pub module_relations : DiscoveredModule → List ArchitectureRelation
  unfolding entity_relation mongo_relations
  module_relations m =
      map (entity_relation m) m.jpa_entities ++ flat_map (mongo_relations m) m.mongo_methods
