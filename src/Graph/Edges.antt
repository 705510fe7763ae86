-- ===== src/Graph/Edges.antt =====
-- GraphEdge and build_graph of domain/graph.py. The trace to stderr is not modelled.
pub mod Build
pub mod Emits
pub mod Sound
pub mod Kafka
pub mod Messages
pub mod Unique
use systemlens.Prelude.{
  ℕ, Bool, true, false, ◌&&◌, ◌||◌, not, Option, none, some, List, [], ◌∷◌, ◌++◌, if◌then◌else◌,
  ◌==◌, ◌≡◌, refl, contains, Eq, ◌↔◌, pair_eq, option_eq, arith,
}
use systemlens.Text.{Text, text_eq, text_beq, text_beq_iff, codes}
use systemlens.Models.{MessageEndpoint, rest, kafka}

pub record GraphEdge : Type 0 where
  pub kind : Text
  pub from_service : Text
  pub to_service : Text
  pub from_endpoint : MessageEndpoint
  pub to_endpoint : Option MessageEndpoint

-- The tuple of `seen`: kind, services, and the two ids or markers.
pub record EdgeKey : Type 0 where
  pub kind : Text
  pub from_service : Text
  pub to_service : Text
  pub from_id : Text
  pub to_id : Text

unfoldable pub key_beq : EdgeKey → EdgeKey → Bool
key_beq a b =
    text_beq a.kind b.kind
    && text_beq a.from_service b.from_service
    && text_beq a.to_service b.to_service
    && text_beq a.from_id b.from_id
    && text_beq a.to_id b.to_id

pub key_beq_iff : (a b : EdgeKey) → (key_beq a b ≡ true) ↔ (a ≡ b)
unfolding key_beq
key_beq_iff a b = ground (
  arith,
  text_beq_iff a.kind b.kind,
  text_beq_iff a.from_service b.from_service,
  text_beq_iff a.to_service b.to_service,
  text_beq_iff a.from_id b.from_id,
  text_beq_iff a.to_id b.to_id,
)

instance abbrev pub key_eq : Eq EdgeKey
key_eq = record { beq = key_beq; beq_iff = key_beq_iff }

unfoldable pub qualified_rest_resource : Text → Text → Text
qualified_rest_resource service_name resource = service_name ++ codes ": " ++ resource

resource_name : Option MessageEndpoint → Text
resource_name none = codes "API"
resource_name (some e) = e.topic

unfoldable pub graph_edge_rest_resource : GraphEdge → Text
unfolding qualified_rest_resource resource_name
graph_edge_rest_resource edge =
    qualified_rest_resource edge.to_service (resource_name edge.to_endpoint)

-- The local variables of build_graph that its loops change.
pub record Progress : Type 0 where
  pub edges : List GraphEdge
  pub seen : List EdgeKey
  pub gateway_proxy_targets : List (Text × Text)

-- if key in seen: continue; seen.add(key); edges.append(edge)
unfoldable pub emit : EdgeKey → GraphEdge → Progress → Progress
emit key edge p =
    if contains p.seen key
    then p
    else record p { edges = p.edges ++ edge ∷ []; seen = key ∷ p.seen }
