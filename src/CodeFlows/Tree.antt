-- ===== src/CodeFlows/Tree.antt =====
-- application/code_flows.py: which flow continues which other one.
pub mod Laws
pub mod Roots
use systemlens.Prelude.{
  ℕ, Bool, true, false, ◌&&◌, ◌||◌, not, Option, none, some, List, [], ◌∷◌, ◌++◌, if◌then◌else◌,
  ◌==◌, filter, map, contains, dedup, ltb, nat_beq, Eq, pair_eq,
}
use systemlens.Prelude.Dict.{Dict, get, put, push, group, values}
use systemlens.Text.{Text, text_eq, codes}
use systemlens.Text.Order.{sort, text_leb}
use systemlens.Models.{MessageEndpoint, produce, consume, serve, call}
use systemlens.CodeFlows.{CodeFlow, CodeFlowStep}
use systemlens.CodeFlows.Internal.{EndpointsById}

-- endpoints.get(endpoint_id or "")
unfoldable pub endpoint_or_none : EndpointsById → Option Text → Option MessageEndpoint
endpoint_or_none d none = get d []
endpoint_or_none d (some id) = get d id

unfoldable pub is_entry : CodeFlowStep → Bool
is_entry s = s.kind == codes "http_entry" || s.kind == codes "message_entry"

abbrev pub FlowIndex : Type 0
FlowIndex = Dict (Text × Text) (List CodeFlow)

-- The endpoint at which a flow starts, for a flow that starts at one.
unfoldable pub entry_endpoint : EndpointsById → List CodeFlowStep → Option MessageEndpoint
unfolding is_entry endpoint_or_none
entry_endpoint d [] = none
entry_endpoint d (s ∷ steps) = if is_entry s then endpoint_or_none d s.endpoint_id else none

unfoldable pub build_flow_index : EndpointsById → FlowIndex → List CodeFlow → FlowIndex
unfolding entry_endpoint
build_flow_index d index [] = index
build_flow_index d index (flow ∷ flows) =
    build_flow_index d
      (elim (entry_endpoint d flow.steps) [
        | none ↦ index
        | some e ↦ push index (e.system, e.topic) flow
      ])
      flows

unfoldable pub is_output_step : CodeFlowStep → Bool
is_output_step s = s.kind == codes "http_call" || s.kind == codes "message_publish"

-- The ids of the output steps; an empty id is none.
unfoldable pub output_ids : List CodeFlowStep → List Text
unfolding is_output_step
output_ids [] = []
output_ids (s ∷ steps) =
    let rest = output_ids steps in
    elim s.endpoint_id [
      | none ↦ rest
      | some [] ↦ rest
      | some (c ∷ t) ↦ if is_output_step s then (c ∷ t) ∷ rest else rest
    ]

present : EndpointsById → List Text → List MessageEndpoint
present d [] = []
present d (id ∷ ids) =
    let rest = present d ids in elim (get d id) [ none ↦ rest | some e ↦ e ∷ rest ]

unfoldable pub output_endpoints : EndpointsById → CodeFlow → List MessageEndpoint
unfolding output_ids present
output_endpoints d flow = present d (dedup (output_ids flow.steps))

-- {"call": "serve", "produce": "consume"}[role]; an output has one of these two roles.
unfoldable pub target_role : Text → Text
target_role role = if role == call then serve else consume

has_role : Text → Option MessageEndpoint → Bool
has_role role none = false
has_role role (some e) = e.role == role

unfoldable pub starts_at : EndpointsById → Text → List CodeFlowStep → Bool
unfolding endpoint_or_none has_role
starts_at d role [] = false
starts_at d role (s ∷ steps) = has_role role (endpoint_or_none d s.endpoint_id)

unfoldable pub continues : EndpointsById → CodeFlow → MessageEndpoint → CodeFlow → Bool
unfolding starts_at target_role
continues d flow output candidate =
    not (candidate.id == flow.id) && starts_at d (target_role output.role) candidate.steps

-- children_by_id[candidate.id] = candidate
keep_children : Dict Text CodeFlow → List CodeFlow → Dict Text CodeFlow
keep_children children [] = children
keep_children children (c ∷ cs) = keep_children (put children c.id c) cs

unfoldable pub candidates_of :
    EndpointsById → FlowIndex → CodeFlow → List MessageEndpoint → List CodeFlow
unfolding continues
candidates_of d index flow [] = []
candidates_of d index flow (output ∷ outputs) =
    filter (continues d flow output) (group index (output.system, output.topic))
    ++ candidates_of d index flow outputs

-- key=lambda item: (item.module, item.path, item.start_line, item.id)
unfoldable pub flow_leb : CodeFlow → CodeFlow → Bool
flow_leb a b =
    if a.in_module == b.in_module
    then if a.path == b.path
      then if nat_beq a.start_line b.start_line
        then text_leb a.id b.id
        else ltb a.start_line b.start_line
      else text_leb a.path b.path
    else text_leb a.in_module b.in_module

unfoldable pub flow_children : EndpointsById → FlowIndex → CodeFlow → List CodeFlow
unfolding output_endpoints candidates_of keep_children flow_leb
flow_children d index flow =
    sort flow_leb (values (keep_children [] (candidates_of d index flow (output_endpoints d flow))))

incoming : EndpointsById → FlowIndex → List CodeFlow → List Text
unfolding flow_children
incoming d index [] = []
incoming d index (flow ∷ flows) =
    map (λ c. c.id) (flow_children d index flow) ++ incoming d index flows

unfoldable pub flow_root_ids : EndpointsById → FlowIndex → List CodeFlow → List Text
unfolding incoming
flow_root_ids d index flows =
    dedup (filter (λ id. not (contains (incoming d index flows) id)) (map (λ f. f.id) flows))
