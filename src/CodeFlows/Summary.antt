-- ===== src/CodeFlows/Summary.antt =====
-- application/code_flows.py: the first and the last endpoint of a flow, and what starts it.
use systemlens.Prelude.{Bool, true, false, not, Option, none, some, List, [], ◌∷◌, ◌==◌}
use systemlens.Prelude.Dict.{get}
use systemlens.Text.{Text, text_eq, codes}
use systemlens.Models.{MessageEndpoint}
use systemlens.CodeFlows.{CodeFlow, CodeFlowStep}
use systemlens.CodeFlows.Internal.{EndpointsById, last_or}

-- The endpoint ids of the steps that have one; an empty id is none.
unfoldable pub step_ids : List CodeFlowStep → List Text
step_ids [] = []
step_ids (s ∷ steps) =
    let rest = step_ids steps in
    elim s.endpoint_id [ none ↦ rest | some [] ↦ rest | some (c ∷ t) ↦ (c ∷ t) ∷ rest ]

-- flow.steps[0].endpoint_id is None
starts_without_endpoint : List CodeFlowStep → Bool
starts_without_endpoint [] = false
starts_without_endpoint (s ∷ steps) = elim s.endpoint_id [ none ↦ true | some id ↦ false ]

-- The first id and the later ones of a flow that has ids.
first_and_last :
    EndpointsById → Bool → Text → List Text → Option MessageEndpoint × Option MessageEndpoint
first_and_last d true id ids = (none, get d (last_or id ids))
first_and_last d false id [] = (get d id, none)
first_and_last d false id (next ∷ ids) = (get d id, get d (last_or next ids))

unfoldable pub endpoint_summary :
    CodeFlow → EndpointsById → Option MessageEndpoint × Option MessageEndpoint
unfolding step_ids starts_without_endpoint first_and_last
endpoint_summary flow d = elim (step_ids flow.steps) [
  | [] ↦ (none, none)
  | id ∷ ids ↦ first_and_last d (starts_without_endpoint flow.steps) id ids
]

unfoldable pub is_root_flow : CodeFlow → Bool
is_root_flow flow = elim flow.steps [
  | [] ↦ false
  | s ∷ steps ↦ not (s.kind == codes "message_entry")
]
