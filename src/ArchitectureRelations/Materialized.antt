-- ===== src/ArchitectureRelations/Materialized.antt =====
-- What build_architecture_relations (indexing/relations.py) materializes.
use mathlib.Core.List.Memᴰ
use mathlib.Core.Logic.{⊎_elim}
use systemlens.Prelude.{
  ◌≡◌, refl, sym, subst, none, some, List, [], ◌∷◌, ◌++◌, flat_map, map, Memᴰ, Distinct,
  Option-cases, inl, inr,
}
use systemlens.Prelude.Dict.{Dict, get, keys, values}
use systemlens.Prelude.Gather.{gather_total, flat_map_iff}
use systemlens.Text.{Text, text_eq}
use systemlens.Text.Order.{sort, Memᴰ-sort, Distinct-map-sort}
use systemlens.Models.{MessageEndpoint, ArchitectureRelation}
use systemlens.DataOperations.Projection.{DiscoveredModule}
use systemlens.Graph.Targets.{RestTargetPolicy}
use systemlens.Graph.Edges.{GraphEdge}
use systemlens.Graph.Edges.Build.{Inputs, build_graph}
use systemlens.ArchitectureRelations.Relation.{
  ModuleDependency, Outside, module_kinds, dependency_relation,
}
use systemlens.ArchitectureRelations.Points.{
  role_relations, module_endpoint_relations, endpoint_relations,
}
use systemlens.ArchitectureRelations.Inventory.{module_relations}
use systemlens.ArchitectureRelations.{
  edge_relation, all_relations, graph_inputs, build_architecture_relations,
}
use systemlens.ArchitectureRelations.Adding.{Relations, relation_order}
use systemlens.ArchitectureRelations.Laws.{Copies, get-none, IsIndex, AddedAll, add_all_total}

-- Each endpoint has one of the four roles.
abbrev pub HasRoles : List MessageEndpoint → Type 0
HasRoles endpoints = (e : MessageEndpoint) → Memᴰ e endpoints → Memᴰ e.role (keys role_relations)

role_known :
    (role : Text)
    → Memᴰ role (keys role_relations)
    → (relation : Text) × (get role_relations role ≡ some relation)
role_known role m = elim (Option-cases (get role_relations role)) [
  | inl missing ↦ absurd (get-none role_relations role missing m)
  | inr found ↦ found
]

ids :
    (relations : Relations)
    → ((k : Text) (r : ArchitectureRelation) → Memᴰ (k, r) relations → r.id ≡ k)
    → map (λ r. r.id) (values relations) ≡ keys relations
ids [] own = refl
ids ((k, r) ∷ relations) own =
    let here : r.id ≡ k = own k r (Memᴰ.head refl) in
    let later = ids relations (λ j s m. own j s (Memᴰ.tail m)) in cc (here, later)

module _ (o : Outside) (modules : List DiscoveredModule) (endpoints : List MessageEndpoint)
    (dependencies : List ModuleDependency) (rest_policy : RestTargetPolicy) where
  abbrev b : Inputs
  b = graph_inputs o modules endpoints rest_policy

  -- The relations for which a fact provides evidence.
  pub data Fact (r : ArchitectureRelation) : Type 0 where
    depends :
        (d : ModuleDependency)
        → Memᴰ d dependencies
        → r ≡ dependency_relation o (module_kinds [] modules) d
        → Fact r
    endpoint :
        (e : MessageEndpoint) (rs : List ArchitectureRelation)
        → Memᴰ e endpoints
        → endpoint_relations o (module_kinds [] modules) e ≡ some rs
        → Memᴰ r rs
        → Fact r
    inventory :
        (m : DiscoveredModule)
        → Memᴰ m modules
        → Memᴰ r (module_relations o (module_kinds [] modules) m)
        → Fact r
    connects : (e : GraphEdge) → Memᴰ e (build_graph b) → r ≡ edge_relation o e → Fact r

  -- The ids are each used once; each fact has its relation, at most under another id; and each
  -- relation has its fact.
  pub record Materializes (rs : List ArchitectureRelation) : Type 0 where
    pub ids_once : Distinct (map (λ r. r.id) rs)
    pub stored :
        (r : ArchitectureRelation) → Fact r → (s : ArchitectureRelation) × (Memᴰ s rs × Copies r s)
    pub evidence :
        (s : ArchitectureRelation) → Memᴰ s rs → (r : ArchitectureRelation) × (Fact r × Copies r s)

  abbrev kinds : Dict Text Text
  kinds = module_kinds [] modules

  endpoint_total :
      (e : MessageEndpoint)
      → Memᴰ e.role (keys role_relations)
      → (rs : List ArchitectureRelation) × (endpoint_relations o kinds e ≡ some rs)
  unfolding endpoint_relations module_endpoint_relations
  endpoint_total e h = elim (Option-cases (endpoint_relations o kinds e)) [
    | inr found ↦ found
    | inl raised ↦ elim (Option-cases e.in_module) [
      | inl q ↦ absurd (no_list _ (rw q at raised))
      | inr (name, q) ↦
          let (relation, known) = role_known e.role h in
          absurd (no_list _ (rw (known, module_endpoint_relations) at (rw q at raised)))
    ]
  ]
    where
      no_list : (rs : List ArchitectureRelation) → some rs ≡ none → ⊥
      no_list rs p = cc

  abbrev after_endpoints : List ArchitectureRelation
  after_endpoints =
      flat_map (module_relations o kinds) modules ++ map (edge_relation o) (build_graph b)

  of_all :
      (of_endpoints : List ArchitectureRelation)
      → ((r : ArchitectureRelation)
          → Memᴰ r of_endpoints
          → (e : MessageEndpoint) × (Memᴰ e endpoints
              × ((rs : List ArchitectureRelation) × ((endpoint_relations o kinds e ≡ some rs)
                    × Memᴰ r rs))))
      → (r : ArchitectureRelation) → Memᴰ r (all_relations o modules dependencies of_endpoints b)
      → Fact r
  unfolding all_relations
  of_all of_endpoints out r m =
      ⊎_elim
        (λ n.
          let (d, k, q) = Memᴰ.of_map (dependency_relation o kinds) dependencies n in
          depends d k (sym q))
        (λ n.
          ⊎_elim (λ k. let (e, (at, (rs, (q, i)))) = out r k in endpoint e rs at q i)
            (λ k.
              ⊎_elim
                (λ i.
                  let (m, (at, j)) = (flat_map_iff (module_relations o kinds) modules r).0 i in
                  inventory m at j)
                (λ i.
                  let (e, at, q) = Memᴰ.of_map (edge_relation o) (build_graph b) i in
                  connects e at (sym q))
                (Memᴰ.append_cases (flat_map (module_relations o kinds) modules) k))
            (Memᴰ.append_cases of_endpoints n))
        (Memᴰ.append_cases (map (dependency_relation o kinds) dependencies)
          {t = of_endpoints ++ after_endpoints} m)

  in_all :
      (of_endpoints : List ArchitectureRelation)
      → ((e : MessageEndpoint) (rs : List ArchitectureRelation) (r : ArchitectureRelation)
          → Memᴰ e endpoints
          → endpoint_relations o kinds e ≡ some rs
          → Memᴰ r rs
          → Memᴰ r of_endpoints)
      → (r : ArchitectureRelation) → Fact r
      → Memᴰ r (all_relations o modules dependencies of_endpoints b)
  unfolding all_relations
  in_all of_endpoints into r (depends d m q) =
      Memᴰ.append_left (of_endpoints ++ after_endpoints)
        (Memᴰ.cast q (Memᴰ.map (dependency_relation o kinds) m))
  in_all of_endpoints into r (endpoint e rs m q n) =
      Memᴰ.append_right (map (dependency_relation o kinds) dependencies)
        (Memᴰ.append_left after_endpoints (into e rs r m q n))
  in_all of_endpoints into r (inventory m at n) =
      Memᴰ.append_right (map (dependency_relation o kinds) dependencies) (
        Memᴰ.append_right of_endpoints (
          Memᴰ.append_left (map (edge_relation o) (build_graph b))
            ((flat_map_iff (module_relations o kinds) modules r).1 (m, (at, n)))))
  in_all of_endpoints into r (connects e m q) =
      Memᴰ.append_right (map (dependency_relation o kinds) dependencies) (
        Memᴰ.append_right of_endpoints (
          Memᴰ.append_right (flat_map (module_relations o kinds) modules)
            (Memᴰ.cast q (Memᴰ.map (edge_relation o) m))))

  materialized :
      (facts : List ArchitectureRelation) (relations : Relations)
      → ((r : ArchitectureRelation) → Memᴰ r facts → Fact r)
      → ((r : ArchitectureRelation) → Fact r → Memᴰ r facts)
      → AddedAll facts [] relations
      → Materializes (sort relation_order (values relations))
  materialized facts relations sound complete all = record {
    ids_once =
        Distinct-map-sort relation_order (λ r. r.id) (values relations)
          (subst Distinct (sym (ids relations all.index.own)) all.index.once);
    stored = λ r f.
        let (s, (m, c)) = all.stored r (complete r f) in
        (s, ((Memᴰ-sort relation_order s (values relations)).1 m, c));
    evidence = λ s m.
        ⊎_elim (λ n. absurd (Memᴰ.not-nil n)) (λ (r, (n, c)). (r, (sound r n, c)))
          (all.from s ((Memᴰ-sort relation_order s (values relations)).0 m));
  }

  -- For endpoints of the four roles the construction ends, without an error and with a free id for
  -- each relation. The ids of the result are pairwise different; each dependency, endpoint, entity,
  -- Mongo call and edge of the graph has its relations in it, with all fields as they were made but
  -- perhaps the id; and nothing else is in it.
  pub build_architecture_relations_total :
      HasRoles endpoints
      → (rs : List ArchitectureRelation) × ((build_architecture_relations o modules endpoints
              dependencies rest_policy
            ≡ some rs)
          × Materializes rs)
  unfolding build_architecture_relations
  build_architecture_relations_total roles =
      let (listed, (e, (into, out))) =
        gather_total (endpoint_relations o kinds) endpoints (λ x m. endpoint_total x (roles x m)) in
      let facts = all_relations o modules dependencies listed b in
      let start : IsIndex [] = record { own = λ k r m. absurd (Memᴰ.not-nil m); once = tt } in
      let (relations, (q, all)) = add_all_total o.digest facts [] start in
      (
        sort relation_order (values relations),
        (
          rw (e, build_architecture_relations) (rw (q) refl),
          materialized facts relations (of_all listed out)
              (in_all listed (λ e rs r m q n. into e rs r m q n)) all,
        ),
      )
