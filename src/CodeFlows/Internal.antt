-- ===== src/CodeFlows/Internal.antt =====
-- application/code_flows.py: the flows inside one module, and the counts of them.
pub mod Steps
pub mod Ends
pub mod Exact
use systemlens.Prelude.{
  ℕ, ◌+◌, Bool, true, false, ◌&&◌, ◌||◌, not, Option, none, some, List, [], ◌∷◌, ◌++◌,
  if◌then◌else◌, ◌==◌, filter, map, all, contains, dedup, length, Eq, option_eq,
}
use systemlens.Prelude.Dict.{Dict, get, put}
use systemlens.Text.{Text, text_eq, codes}
use systemlens.Text.Order.{sort, text_leb}
use systemlens.Models.{MessageEndpoint, kafka, rest, produce, consume, serve, call}
use systemlens.Graph.Edges.{GraphEdge}
use systemlens.CodeFlows.{CodeFlow, CodeFlowStep}

abbrev pub EndpointsById : Type 0
EndpointsById = Dict Text MessageEndpoint

-- {endpoint.id: endpoint for endpoint in endpoints}
unfoldable pub by_id : EndpointsById → List MessageEndpoint → EndpointsById
by_id d [] = d
by_id d (e ∷ es) = by_id (put d e.id e) es

abbrev pub data_step_kinds : List Text
data_step_kinds = codes "data_read" ∷ codes "data_write" ∷ codes "data_access" ∷ []

-- The endpoints of the steps that name an indexed one, in their order; an empty id is none.
unfoldable pub step_endpoint : EndpointsById → Option Text → Option MessageEndpoint
step_endpoint d none = none
step_endpoint d (some []) = none
step_endpoint d (some (c ∷ s)) = get d (c ∷ s)

unfoldable pub endpoint_steps : EndpointsById → List CodeFlowStep → List MessageEndpoint
unfolding step_endpoint
endpoint_steps d [] = []
endpoint_steps d (s ∷ steps) =
    let rest = endpoint_steps d steps in
    elim (step_endpoint d s.endpoint_id) [ none ↦ rest | some e ↦ e ∷ rest ]

unfoldable pub is_input : MessageEndpoint → Bool
is_input e = e.role == serve || e.role == consume

unfoldable pub is_output : MessageEndpoint → Bool
is_output e = e.role == call || e.role == produce

unfoldable pub last_or {ℓ} : {A : Type ℓ} → A → List A → A
last_or a [] = a
last_or a (b ∷ bs) = last_or b bs

unfoldable pub last_kind : List CodeFlowStep → Text
last_kind [] = []
last_kind (s ∷ steps) = (last_or s steps).kind

-- An endpoint without a module is no evidence of another one.
unfoldable pub in_module_or_none : Text → MessageEndpoint → Bool
in_module_or_none name e = e.in_module == none || e.in_module == some name

unfoldable pub is_internal_module_flow : CodeFlow → EndpointsById → Text → Bool
unfolding endpoint_steps is_input is_output last_kind in_module_or_none last_or
is_internal_module_flow flow d name = flow.in_module == name && elim (endpoint_steps d flow.steps) [
  | [] ↦ false
  | first ∷ others ↦
      is_input first
      && not (contains data_step_kinds (last_kind flow.steps))
      && is_output (last_or first others)
      && all (in_module_or_none name) (first ∷ others)
]

has_target : Option MessageEndpoint → Bool
has_target none = false
has_target (some t) = true

unfoldable pub is_internal_edge : Text → GraphEdge → Bool
unfolding has_target
is_internal_edge kind e =
    e.kind == kind && has_target e.to_endpoint && not (e.from_service == e.to_service)

pub record InternalFlowStats : Type 0 where
  pub http_internal_connections : ℕ
  pub kafka_internal_connections : ℕ
  pub internal_connections : ℕ

unfoldable pub internal_flow_stats : List GraphEdge → InternalFlowStats
unfolding is_internal_edge
internal_flow_stats edges =
    let http = length (filter (is_internal_edge rest) edges) in
    let messages = length (filter (is_internal_edge kafka) edges) in
    record {
      http_internal_connections = http;
      kafka_internal_connections = messages;
      internal_connections = http + messages;
    }
