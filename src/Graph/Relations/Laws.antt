-- ===== src/Graph/Relations/Laws.antt =====
-- The edges of graph_edges_from_relations (domain/graph.py): each is asserted by a relation and
-- rests on indexed sites, and no asserted relation with its site is lost.
use mathlib.Core.List.Memᴰ
use mathlib.Core.Logic.{⊎_elim}
use systemlens.Prelude.{
  ◌≡◌, refl, sym, ap, ◌∙◌, subst, true, Option, none, some, List, [], ◌∷◌, map, Memᴰ, Bool-cases,
  inl, inr, pair_eq, option_eq, ℕ_eq,
}
use systemlens.Prelude.Seen.{keep_all, keep_all-Memᴰ, keep_all-keys}
use systemlens.Text.{text_eq}
use systemlens.Text.Order.{sort, Memᴰ-sort}
use systemlens.Models.{MessageEndpoint, ArchitectureRelation}
use systemlens.Graph.Paths.{Compile}
use systemlens.Graph.Edges.{GraphEdge}
use systemlens.Graph.Edges.Build.{Endpoints}
use systemlens.Graph.Relations.{
  RelationKey, relation_leb, connects_services, kind_of, or_none, relation_key, target_endpoints,
  candidates_for, edge_to, edges_at, proposed, graph_edges_from_relations,
}
use systemlens.Graph.Relations.Sites.{IsEvidence, IsTarget, candidates_iff, targets_sound}

module _ (compile : Compile) (d : Endpoints) where
  -- An edge that a relation asserts.
  pub record Asserts (r : ArchitectureRelation) (e : GraphEdge) : Type 0 where
    pub connects : connects_services r ≡ true
    pub kind : e.kind ≡ kind_of r
    pub from : e.from_service ≡ r.source_name
    pub to : e.to_service ≡ r.target_name
    pub source : IsEvidence compile d r e.from_endpoint
    pub target :
        (t : MessageEndpoint)
        → e.to_endpoint ≡ some t
        → IsTarget compile d e.kind e.to_service e.from_endpoint t

  or_none_some :
      (es : List MessageEndpoint) (t : MessageEndpoint) → Memᴰ (some t) (or_none es) → Memᴰ t es
  unfolding or_none
  or_none_some [] t m = cc (Memᴰ.eq_of_singleton m)
  or_none_some (e ∷ es) t m =
      let (x, n, q) = Memᴰ.of_map some (e ∷ es) m in let same : x ≡ t = cc in Memᴰ.cast (sym same) n

  or_none_some_first :
      (es : List MessageEndpoint) → (o : Option MessageEndpoint) × Memᴰ o (or_none es)
  unfolding or_none
  or_none_some_first [] = (none, Memᴰ.head refl)
  or_none_some_first (e ∷ es) = (some e, Memᴰ.head refl)

  edges_at-Asserts :
      (r : ArchitectureRelation) (sources : List MessageEndpoint) (e : GraphEdge)
      → connects_services r ≡ true
      → ((s : MessageEndpoint) → Memᴰ s sources → IsEvidence compile d r s)
      → Memᴰ e (edges_at compile d r sources)
      → Asserts r e
  unfolding edges_at
  edges_at-Asserts r [] e c h m = absurd (Memᴰ.not-nil m)
  edges_at-Asserts r (s ∷ sources) e c h m =
      let targets = or_none (target_endpoints compile d (kind_of r) r.target_name s) in
      ⊎_elim
        (λ n.
          let (o, k, q) = Memᴰ.of_map (edge_to compile d r s) targets n in
          subst (Asserts r) q (record {
            connects = c;
            kind = refl;
            from = refl;
            to = refl;
            source = h s (Memᴰ.head refl);
            target = λ t p.
                targets_sound compile d (kind_of r) r.target_name s t
                  (or_none_some _ t (Memᴰ.cast (sym p) k));
          }))
        (edges_at-Asserts r sources e c (λ x n. h x (Memᴰ.tail n)))
        (Memᴰ.append_cases (map (edge_to compile d r s) targets) m)

  proposed-Asserts :
      (rs : List ArchitectureRelation) (e : GraphEdge)
      → Memᴰ e (proposed compile d rs)
      → (r : ArchitectureRelation) × (Memᴰ r rs × Asserts r e)
  unfolding proposed
  proposed-Asserts [] e m = absurd (Memᴰ.not-nil m)
  proposed-Asserts (r ∷ rs) e m =
      let later : Memᴰ e (proposed compile d rs)
          → (x : ArchitectureRelation) × (Memᴰ x (r ∷ rs) × Asserts x e) =
        λ n. let (x, (k, a)) = proposed-Asserts rs e n in (x, (Memᴰ.tail k, a)) in
      elim (Bool-cases (connects_services r)) [
        | inr c ↦ later (rw c at m)
        | inl c ↦
            ⊎_elim
              (λ n. (
                r,
                (
                  Memᴰ.head refl,
                  edges_at-Asserts r (candidates_for compile d r) e c
                      (λ s k. (candidates_iff compile d r s).0 k) n,
                ),
              ))
              later
              (Memᴰ.append_cases (edges_at compile d r (candidates_for compile d r)) (rw c at m))
      ]

  -- Every edge is asserted by one of the relations: a relation of microservices that names its kind
  -- and its two services, with an indexed site of the source service at the file, the line and in
  -- the role of the relation. A target site, where there is one, is indexed in the target service;
  -- it is a consumer of the same topic whose payload does not conflict, or a served route that the
  -- call matches.
  pub relations_sound :
      (relations : List ArchitectureRelation) (e : GraphEdge)
      → Memᴰ e (graph_edges_from_relations compile d relations)
      → (r : ArchitectureRelation) × (Memᴰ r relations × Asserts r e)
  unfolding graph_edges_from_relations
  relations_sound relations e m =
      let (r, (n, a)) =
        proposed-Asserts (sort relation_leb relations) e (keep_all-Memᴰ relation_key _ e m) in
      (r, ((Memᴰ-sort relation_leb r relations).0 n, a))

  edges_at-there :
      (r : ArchitectureRelation) (sources : List MessageEndpoint) (source : MessageEndpoint)
      → Memᴰ source sources
      → (o : Option MessageEndpoint) × Memᴰ
          (edge_to compile d r source o)
          (edges_at compile d r sources)
  unfolding edges_at
  edges_at-there r [] source m = absurd (Memᴰ.not-nil m)
  edges_at-there r (s ∷ sources) source m =
      ⊎_elim
        (λ same.
          let (o, n) =
            or_none_some_first (target_endpoints compile d (kind_of r) r.target_name s) in
          (
            o,
            Memᴰ.append_left (edges_at compile d r sources) (
                subst
                  (λ z. Memᴰ (edge_to compile d r z o) (
                    map (edge_to compile d r s)
                      (or_none (target_endpoints compile d (kind_of r) r.target_name s))))
                  (sym same) (Memᴰ.map (edge_to compile d r s) n)),
          ))
        (λ n. let (o, k) = edges_at-there r sources source n in (o, Memᴰ.append_right _ k))
        (Memᴰ.cases_cons m)

  proposed-there :
      (rs : List ArchitectureRelation) (r : ArchitectureRelation) (source : MessageEndpoint)
      → Memᴰ r rs
      → connects_services r ≡ true
      → IsEvidence compile d r source
      → (o : Option MessageEndpoint) × Memᴰ (edge_to compile d r source o) (proposed compile d rs)
  unfolding proposed
  proposed-there [] r source m c h = absurd (Memᴰ.not-nil m)
  proposed-there (x ∷ rs) r source m c h = elim (Memᴰ.cases_cons m) [
    | inl same ↦
        let (o, n) =
          edges_at-there r (candidates_for compile d r) source
            ((candidates_iff compile d r source).1 h) in
        let cx : connects_services x ≡ true = ap connects_services (sym same) ∙ c in
        (
          o,
          rw cx (
              Memᴰ.append_left (proposed compile d rs) (
                subst
                  (λ z.
                    Memᴰ (edge_to compile d r source o)
                      (edges_at compile d z (candidates_for compile d z)))
                  same n)),
        )
    | inr k ↦
        let (o, n) = proposed-there rs r source k c h in
        (
          o,
          elim (Bool-cases (connects_services x)) [
            | inl t ↦ rw t (Memᴰ.append_right (edges_at compile d x (candidates_for compile d x)) n)
            | inr t ↦ rw t n
          ],
        )
  ]

  -- No asserted connection is lost: for a relation of two microservices and a site that is its
  -- evidence, there is an edge of its kind between its services that starts at a site of that id.
  pub relations_complete :
      (relations : List ArchitectureRelation) (r : ArchitectureRelation) (source : MessageEndpoint)
      → Memᴰ r relations
      → connects_services r ≡ true
      → IsEvidence compile d r source
      → (e : GraphEdge) × (Memᴰ e (graph_edges_from_relations compile d relations)
          × ((e.kind ≡ kind_of r)
              × ((e.from_service ≡ r.source_name)
                  × ((e.to_service ≡ r.target_name) × (e.from_endpoint.id ≡ source.id)))))
  unfolding graph_edges_from_relations relation_key
  relations_complete relations r source m c h =
      let rs = sort relation_leb relations in
      let (o, n) = proposed-there rs r source ((Memᴰ-sort relation_leb r relations).1 m) c h in
      let (e, k, q) =
        Memᴰ.of_map relation_key (keep_all relation_key (proposed compile d rs)).items
          (keep_all-keys relation_key (proposed compile d rs) (edge_to compile d r source o) n) in
      (
        e,
        (
          k,
          (
            ap (λ (z : RelationKey). z.0) q,
            (
              ap (λ (z : RelationKey). z.1.0) q,
              (ap (λ (z : RelationKey). z.1.1.0) q, ap (λ (z : RelationKey). z.1.1.1.0) q),
            ),
          ),
        ),
      )
