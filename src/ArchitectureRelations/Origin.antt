-- ===== src/ArchitectureRelations/Origin.antt =====
-- Where the relations of build_architecture_relations (indexing/relations.py) lead that are not of
-- an edge: never from a service to a service.
use mathlib.Core.List.Memᴰ
use mathlib.Core.Logic.{⊎_elim}
use systemlens.Prelude.{
  ◌≡◌, refl, sym, subst, true, false, Option, none, some, List, [], ◌∷◌, ◌++◌, ◌==◌, map, dedup,
  Memᴰ, Option-cases, Bool-cases, inl, inr, arith,
}
use systemlens.Prelude.Dict.{Dict, get}
use systemlens.Prelude.Gather.{flat_map_iff}
use systemlens.Text.{Text, text_eq, text_beq, codes}
use systemlens.Text.Order.{sort, text_leb}
use systemlens.Models.{MessageEndpoint, ArchitectureRelation, kafka}
use systemlens.MongoOperations.{Facet, mongo_facets}
use systemlens.DataOperations.Projection.{DiscoveredModule, JpaEntity, MongoMethod, or_absent}
use systemlens.Graph.Relations.{connects_services}
use systemlens.ArchitectureRelations.Relation.{
  ModuleDependency, Outside, relation_of, kind_or_module, dependency_relation,
}
use systemlens.ArchitectureRelations.Points.{
  evidence_of, role_relations, target_kind, class_relations, property_relations, type_relations,
  module_endpoint_relations,
}
use systemlens.ArchitectureRelations.Inventory.{
  entity_relation, facet_relations, mongo_relations, module_relations,
}

-- The target of the relation is no service.
abbrev pub LeadsAway : ArchitectureRelation → Type 0
LeadsAway r = (r.target_kind == codes "microservice") ≡ false

pub LeadsAway-connects : (r : ArchitectureRelation) → LeadsAway r → connects_services r ≡ true → ⊥
unfolding connects_services
LeadsAway-connects r away c = ground arith

module _ (o : Outside) (kinds : Dict Text Text) where
  endpoint_target : (e : MessageEndpoint) → (target_kind o kinds e == codes "microservice") ≡ false
  unfolding target_kind text_beq
  endpoint_target e = elim (Bool-cases (e.system == kafka)) [
    | inl t ↦ rw (t, target_kind) refl
    | inr t ↦ rw (t, target_kind) refl
  ]

  class-LeadsAway :
      (name : Text) (e : MessageEndpoint) (r : ArchitectureRelation)
      → Memᴰ r (class_relations o kinds name e)
      → LeadsAway r
  unfolding class_relations relation_of
  class-LeadsAway name e r m = elim (Option-cases (or_absent e.qualified_name)) [
    | inl q ↦ absurd (Memᴰ.not-nil (rw (q, class_relations) at m))
    | inr (c, q) ↦ rw (Memᴰ.eq_of_singleton (rw (q, class_relations) at m)) (endpoint_target e)
  ]

  property-LeadsAway :
      (name : Text) (e : MessageEndpoint) (r : ArchitectureRelation)
      → Memᴰ r (property_relations o kinds name e)
      → LeadsAway r
  unfolding property_relations relation_of text_beq
  property-LeadsAway name e r m =
      let (key, n, q) = Memᴰ.of_map _ (sort text_leb (dedup (o.property_keys e.snippet))) m in
      rw (sym q) refl

  type-LeadsAway :
      (name : Text) (e : MessageEndpoint) (r : ArchitectureRelation)
      → Memᴰ r (type_relations o kinds name e)
      → LeadsAway r
  unfolding type_relations relation_of text_beq
  type-LeadsAway name e r m = elim (Option-cases (or_absent e.message_type)) [
    | inl q ↦ absurd (Memᴰ.not-nil (rw (q, type_relations) at m))
    | inr (type, q) ↦ elim (Bool-cases (e.system == kafka)) [
      | inl t ↦ rw (Memᴰ.eq_of_singleton (rw t at (rw (q, type_relations) at m))) refl
      | inr t ↦ absurd (Memᴰ.not-nil (rw t at (rw (q, type_relations) at m)))
    ]
  ]

  parts-LeadsAway :
      (name relation : Text) (e : MessageEndpoint) (r : ArchitectureRelation)
      → Memᴰ r (
          relation_of o
              (kind_or_module kinds name)
              name
              relation
              (target_kind o kinds e)
              e.topic
              (evidence_of name e)
            ∷ class_relations o kinds name e
          ++ property_relations o kinds name e
          ++ type_relations o kinds name e)
      → LeadsAway r
  unfolding relation_of
  parts-LeadsAway name relation e r n =
      ⊎_elim (λ p. rw p (endpoint_target e))
        (λ k.
          ⊎_elim
            (λ j.
              ⊎_elim (class-LeadsAway name e r) (property-LeadsAway name e r)
                (Memᴰ.append_cases (class_relations o kinds name e) j))
            (type-LeadsAway name e r)
            (Memᴰ.append_cases (class_relations o kinds name e ++ property_relations o kinds name e)
              k))
        (Memᴰ.cases_cons n)

  pub endpoint-LeadsAway :
      (e : MessageEndpoint) (rs : List ArchitectureRelation) (r : ArchitectureRelation)
      (of_module : Option Text)
      → module_endpoint_relations o kinds of_module e ≡ some rs
      → Memᴰ r rs
      → LeadsAway r
  unfolding module_endpoint_relations
  endpoint-LeadsAway e rs r none q m =
      let same : [] ≡ rs = cc q in absurd (Memᴰ.not-nil (subst (Memᴰ r) (sym same) m))
  endpoint-LeadsAway e rs r (some name) q m = elim (Option-cases (get role_relations e.role)) [
    | inl t ↦ absurd (no_list (rw (t, module_endpoint_relations) at q))
    | inr (relation, t) ↦
        parts-LeadsAway name relation e r
          (subst (Memᴰ r) (sym (list_of (rw (t, module_endpoint_relations) at q))) m)
  ]
    where
      no_list : ◌≡◌ {A = Option (List ArchitectureRelation)} none (some rs) → ⊥
      no_list p = cc

      list_of : {xs : List ArchitectureRelation} → some xs ≡ some rs → xs ≡ rs
      list_of p = cc

  entity-LeadsAway :
      (m : DiscoveredModule) (entity : JpaEntity) → LeadsAway (entity_relation o kinds m entity)
  unfolding entity_relation relation_of text_beq
  entity-LeadsAway m entity = refl

  facet-LeadsAway :
      (m : DiscoveredModule) (method : MongoMethod) (collection : Text) (facet : Facet)
      (r : ArchitectureRelation)
      → Memᴰ r (facet_relations o kinds m method collection facet)
      → LeadsAway r
  unfolding facet_relations relation_of text_beq
  facet-LeadsAway m method collection facet r n =
      ⊎_elim (λ q. rw q refl)
        (λ k. elim (Option-cases (or_absent method.owner_method)) [
          | inl q ↦ absurd (Memᴰ.not-nil (rw q at k))
          | inr (owner, q) ↦ rw (Memᴰ.eq_of_singleton (rw q at k)) refl
        ])
        (Memᴰ.cases_cons n)

  pub inventory-LeadsAway :
      (m : DiscoveredModule) (r : ArchitectureRelation)
      → Memᴰ r (module_relations o kinds m)
      → LeadsAway r
  unfolding module_relations mongo_relations
  inventory-LeadsAway m r n =
      ⊎_elim
        (λ k.
          let (entity, l, q) = Memᴰ.of_map (entity_relation o kinds m) m.jpa_entities k in
          subst LeadsAway q (entity-LeadsAway m entity))
        (λ k.
          let (method, (l, j)) = (flat_map_iff (mongo_relations o kinds m) m.mongo_methods r).0 k in
          elim (Option-cases (or_absent method.collection)) [
            | inl q ↦ absurd (Memᴰ.not-nil (rw (q, mongo_relations) at j))
            | inr (collection, q) ↦
                let (facet, (i, h)) =
                  (flat_map_iff (facet_relations o kinds m method collection)
                      (mongo_facets method.operation) r).0
                    (rw (q, mongo_relations) at j) in
                facet-LeadsAway m method collection facet r h
          ])
        (Memᴰ.append_cases (map (entity_relation o kinds m) m.jpa_entities) n)

  pub depends-connects :
      (x : ModuleDependency) → connects_services (dependency_relation o kinds x) ≡ true → ⊥
  unfolding dependency_relation relation_of connects_services text_beq
  depends-connects x c = ground arith
