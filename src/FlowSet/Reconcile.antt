-- ===== src/FlowSet/Reconcile.antt =====
-- reconcile_code_flows (indexing/code_flows.py). The entries of `steps` are different objects, so
-- that `step is not endpoint_steps[0]` holds from the second one on.
pub mod Sites
pub mod Supports
pub mod Laws
use systemlens.Prelude.{
  ℕ, Bool, true, false, ◌&&◌, ◌||◌, not, Option, none, some, List, [], ◌∷◌, if◌then◌else◌, ◌==◌,
  filter, map, dedup, length, ltb, nat_beq, Eq, option_eq, pair_eq,
}
use systemlens.Prelude.Dict.{Dict, get, group, group_all}
use systemlens.Text.{Text, text_eq, codes}
use systemlens.Models.{MessageEndpoint, kafka}
use systemlens.Graph.Edges.{GraphEdge}
use systemlens.CodeFlows.{CodeFlow, CodeFlowStep}
use systemlens.CodeFlows.Internal.{EndpointsById, by_id, is_input, is_output}

-- An empty id is none.
unfoldable pub id_onto : Option Text → List Text → List Text
id_onto none ids = ids
id_onto (some []) ids = ids
id_onto (some (c ∷ t)) ids = (c ∷ t) ∷ ids

-- [step for step in flow.steps if step.endpoint_id]; of a step only its endpoint is read.
unfoldable pub endpoint_ids : List CodeFlowStep → List Text
unfolding id_onto
endpoint_ids [] = []
endpoint_ids (s ∷ steps) = id_onto s.endpoint_id (endpoint_ids steps)

-- The endpoints of the ids; `none` if an id is not indexed.
unfoldable pub resolve : EndpointsById → List Text → Option (List MessageEndpoint)
resolve d [] = some []
resolve d (id ∷ ids) =
    let rest = resolve d ids in
    elim (get d id) [ none ↦ none | some e ↦ elim rest [ none ↦ none | some es ↦ some (e ∷ es) ] ]

unfoldable pub outgoing : List GraphEdge → Dict Text (List GraphEdge)
outgoing edges = group_all (λ e. e.from_endpoint.id) (λ e. e) [] edges

-- The edges with a target endpoint, each beside that endpoint's id.
unfoldable pub with_target : List GraphEdge → List (Text × GraphEdge)
with_target [] = []
with_target (e ∷ edges) =
    let rest = with_target edges in elim e.to_endpoint [ none ↦ rest | some t ↦ (t.id, e) ∷ rest ]

unfoldable pub incoming : List GraphEdge → Dict Text (List GraphEdge)
unfolding with_target
incoming edges = group_all (λ p. p.0) (λ p. p.1) [] (with_target edges)

unfoldable pub id_or_none : Option MessageEndpoint → Option Text
id_or_none none = none
id_or_none (some e) = some e.id

unfoldable pub target_id : GraphEdge → Option Text
unfolding id_or_none
target_id edge = id_or_none edge.to_endpoint

abbrev pub target : GraphEdge → Text × Option Text
unfolding target_id
target edge = (edge.to_service, target_id edge)

-- A following effect is a sibling, not this effect's target.
unfoldable pub continuation : Option MessageEndpoint → Option MessageEndpoint
continuation none = none
continuation (some e) = if is_input e then some e else none

unfoldable pub stays_in : Text → Option MessageEndpoint → Bool
stays_in name none = false
stays_in name (some e) = e.in_module == some name

unfoldable pub matching_outgoing :
    List GraphEdge → MessageEndpoint → Option MessageEndpoint → List GraphEdge
unfolding outgoing target_id
matching_outgoing edges e none = group (outgoing edges) e.id
matching_outgoing edges e (some n) =
    filter (λ edge. target_id edge == some n.id) (group (outgoing edges) e.id)

unfoldable pub ambiguous : MessageEndpoint → List GraphEdge → Bool
unfolding target_id
ambiguous e matching =
    let distinct_targets = length (dedup (map target matching)) in
    not (nat_beq distinct_targets (length matching))
    || (not (e.system == kafka) && ltb 1 distinct_targets)

unfoldable pub effect_supported :
    Text → List GraphEdge → MessageEndpoint → Option MessageEndpoint → Bool
unfolding continuation stays_in matching_outgoing ambiguous
effect_supported name edges e following =
    let next_endpoint = continuation following in
    let matching = matching_outgoing edges e next_endpoint in
    stays_in name next_endpoint || (ltb 0 (length matching) && not (ambiguous e matching))

unfoldable pub matching_incoming :
    List GraphEdge → MessageEndpoint → MessageEndpoint → List GraphEdge
unfolding incoming
matching_incoming edges previous e =
    filter (λ edge. edge.from_endpoint.id == previous.id) (group (incoming edges) e.id)

unfoldable pub entry_supported :
    Text → List GraphEdge → Option MessageEndpoint → MessageEndpoint → Bool
unfolding matching_incoming
entry_supported name edges none e = true
entry_supported name edges (some previous) e =
    e.in_module == some name || nat_beq (length (matching_incoming edges previous e)) 1

-- A round of the inner loop that does not make the flow partial.
unfoldable pub supported :
    Text → List GraphEdge → Option MessageEndpoint → MessageEndpoint → Option MessageEndpoint → Bool
unfolding effect_supported entry_supported
supported name edges previous e following =
    if is_output e
    then effect_supported name edges e following
    else if is_input e
    then entry_supported name edges previous e
    else true

unfoldable pub first_of {ℓ} : {A : Type ℓ} → List A → Option A
first_of [] = none
first_of (a ∷ as') = some a

unfoldable pub all_supported :
    Text → List GraphEdge → Option MessageEndpoint → List MessageEndpoint → Bool
unfolding supported first_of
all_supported name edges previous [] = true
all_supported name edges previous (e ∷ es) =
    supported name edges previous e (first_of es) && all_supported name edges (some e) es

abbrev pub complete : Text
complete = codes "complete"

abbrev pub partial : Text
partial = codes "partial"

unfoldable pub status_of : Text → List GraphEdge → Option (List MessageEndpoint) → Text
unfolding all_supported
status_of name edges none = partial
status_of name edges (some es) = if all_supported name edges none es then complete else partial

unfoldable pub flow_status : EndpointsById → List GraphEdge → CodeFlow → Text
unfolding endpoint_ids resolve status_of
flow_status d edges flow = status_of flow.in_module edges (resolve d (endpoint_ids flow.steps))

unfoldable pub reconciled : EndpointsById → List GraphEdge → CodeFlow → CodeFlow
unfolding flow_status
reconciled d edges flow = record flow { reconciliation = flow_status d edges flow }

unfoldable pub reconcile_code_flows :
    List CodeFlow → List MessageEndpoint → List GraphEdge → List CodeFlow
unfolding reconciled
reconcile_code_flows flows endpoints edges = map (reconciled (by_id [] endpoints) edges) flows
