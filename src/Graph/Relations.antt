-- ===== src/Graph/Relations.antt =====
-- graph_edges_from_relations of domain/graph.py: the edges that the persisted relations assert. Its
-- three nested loops are one list of proposed edges, of which the first of each key is kept.
pub mod Laws
pub mod Sites
mod Examples
use systemlens.Prelude.{
  ℕ, Bool, true, false, ◌&&◌, ◌||◌, not, Option, none, some, List, [], ◌∷◌, ◌++◌, if◌then◌else◌,
  ◌==◌, filter, map, Eq, pair_eq, option_eq, ℕ_eq,
}
use systemlens.Prelude.Dict.{Dict, group, group_all, values}
use systemlens.Prelude.Seen.{keep_all}
use systemlens.Text.{Text, text_eq, codes}
use systemlens.Text.Order.{sort, text_leb}
use systemlens.Models.{
  MessageEndpoint, ArchitectureRelation, kafka, rest, produce, consume, serve, call,
}
use systemlens.MessageTypes.{message_types_conflict}
use systemlens.Graph.Paths.{Compile}
use systemlens.Graph.Routes.{select_matching_routes}
use systemlens.Graph.Edges.{GraphEdge}
use systemlens.Graph.Edges.Build.{Endpoints}

-- (module, path, start_line, role)
abbrev pub SiteKey : Type 0
SiteKey = Text × (Option Text × (Option ℕ × Text))

-- (kind, source service, target service, source id, target id or None)
abbrev pub RelationKey : Type 0
RelationKey = Text × (Text × (Text × (Text × Option Text)))

abbrev pub flattened : List (List MessageEndpoint) → List MessageEndpoint
flattened [] = []
flattened (es ∷ rest) = es ++ flattened rest

-- The endpoints that name a module, with it.
abbrev pub with_module : List MessageEndpoint → List (Text × MessageEndpoint)
with_module [] = []
with_module (e ∷ es) =
    let rest = with_module es in elim e.in_module [ none ↦ rest | some m ↦ (m, e) ∷ rest ]

abbrev pub site_key_of : Text × MessageEndpoint → SiteKey
site_key_of (m, e) = (m, (some e.path, (some e.start_line, e.role)))

unfoldable pub source_index : Endpoints → Dict SiteKey (List MessageEndpoint)
source_index d = group_all site_key_of (λ s. s.1) [] (with_module (flattened (values d)))

abbrev pub is_consumption : Text × MessageEndpoint → Bool
is_consumption s = s.1.system == kafka && s.1.role == consume

abbrev pub is_service : Text × MessageEndpoint → Bool
is_service s = not (is_consumption s) && (s.1.system == rest && s.1.role == serve)

unfoldable pub consumers_index : Endpoints → Dict (Text × Text) (List MessageEndpoint)
consumers_index d =
    group_all (λ s. (s.0, s.1.topic)) (λ s. s.1) []
      (filter is_consumption (with_module (flattened (values d))))

unfoldable pub serves_index : Endpoints → Dict Text (List MessageEndpoint)
serves_index d =
    group_all (λ s. s.0) (λ s. s.1) [] (filter is_service (with_module (flattened (values d))))

-- key=lambda item: (item.id, item.source_name, item.target_name)
unfoldable pub relation_leb : ArchitectureRelation → ArchitectureRelation → Bool
relation_leb a b =
    if a.id == b.id
    then if a.source_name == b.source_name
      then text_leb a.target_name b.target_name
      else text_leb a.source_name b.source_name
    else text_leb a.id b.id

unfoldable pub connects_services : ArchitectureRelation → Bool
connects_services r =
    r.source_kind == codes "microservice"
    && r.target_kind == codes "microservice"
    && (r.relation == codes "calls_service" || r.relation == codes "publishes_to")

unfoldable pub kind_of : ArchitectureRelation → Text
kind_of r = if r.relation == codes "calls_service" then rest else kafka

unfoldable pub role_of : ArchitectureRelation → Text
unfolding kind_of
role_of r = if kind_of r == rest then call else produce

-- list(...) or [None]
unfoldable pub or_none : List MessageEndpoint → List (Option MessageEndpoint)
or_none [] = none ∷ []
or_none (e ∷ es) = map some (e ∷ es)

unfoldable pub relation_key : GraphEdge → RelationKey
relation_key e = (
  e.kind,
  (
    e.from_service,
    (e.to_service, (e.from_endpoint.id, elim e.to_endpoint [ none ↦ none | some t ↦ some t.id ])),
  ),
)

module _ (compile : Compile) (d : Endpoints) where
  unfoldable pub target_endpoints : Text → Text → MessageEndpoint → List MessageEndpoint
  target_endpoints kind target_service source =
      if kind == kafka
      then filter (λ c. not (message_types_conflict source.message_type c.message_type))
          (group (consumers_index d) (target_service, source.topic))
      else select_matching_routes compile source.topic (group (serves_index d) target_service)

  unfoldable pub candidates_for : ArchitectureRelation → List MessageEndpoint
  unfolding role_of
  candidates_for r = group (source_index d) (r.source_name, (r.path, (r.start_line, role_of r)))

  abbrev pub edge_to : ArchitectureRelation → MessageEndpoint → Option MessageEndpoint → GraphEdge
  edge_to r source target = record {
    kind = kind_of r;
    from_service = r.source_name;
    to_service = r.target_name;
    from_endpoint = source;
    to_endpoint = target;
  }

  unfoldable pub edges_at : ArchitectureRelation → List MessageEndpoint → List GraphEdge
  unfolding or_none kind_of
  edges_at r [] = []
  edges_at r (source ∷ sources) =
      map (edge_to r source) (or_none (target_endpoints (kind_of r) r.target_name source))
      ++ edges_at r sources

  unfoldable pub proposed : List ArchitectureRelation → List GraphEdge
  unfolding connects_services
  proposed [] = []
  proposed (r ∷ rs) =
      let later = proposed rs in
      if connects_services r then edges_at r (candidates_for r) ++ later else later

  unfoldable pub graph_edges_from_relations : List ArchitectureRelation → List GraphEdge
  unfolding relation_key relation_leb
  graph_edges_from_relations relations =
      (keep_all relation_key (proposed (sort relation_leb relations))).items
