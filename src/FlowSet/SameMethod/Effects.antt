-- ===== src/FlowSet/SameMethod/Effects.antt =====
-- The effects of a method as the steps of a flow (indexing/code_flows.py).
use systemlens.Prelude.{
  ℕ, suc, Bool, Option, none, some, List, [], ◌∷◌, ◌++◌, if◌then◌else◌, filter, ltb, map, nat_beq,
  pair_eq, option_eq, ℕ_eq,
}
use systemlens.Text.{Text, text_eq}
use systemlens.Text.Order.{sort, text_leb}
use systemlens.Models.{MessageEndpoint}
use systemlens.DataOperations.{DataOperation}
use systemlens.CodeFlows.{CodeFlow, CodeFlowStep}
use systemlens.FlowSet.Steps.{endpoint_step, operation_step, operation_sort_key}
use systemlens.FlowSet.SameMethod.Nodes.{MethodNode, encloses}

pub data Effect : Type 0 where
  point : MessageEndpoint → Effect
  fact : DataOperation → Effect

-- An effect behind its line and its key.
abbrev pub Ranked : Type 0
Ranked = (ℕ × Text) × Effect

-- key=lambda item: (item[0], item[1])
unfoldable pub ranked_leb : Ranked → Ranked → Bool
ranked_leb a b = if nat_beq a.0.0 b.0.0 then text_leb a.0.1 b.0.1 else ltb a.0.0 b.0.0

unfoldable pub rank_point : MessageEndpoint → Ranked
rank_point e = ((e.start_line, e.id), Effect.point e)

unfoldable pub rank_fact : DataOperation → Ranked
rank_fact o = (operation_sort_key o, Effect.fact o)

unfoldable pub ranked : List MessageEndpoint → List DataOperation → MethodNode → List Ranked
unfolding rank_point rank_fact encloses
ranked endpoints operations m =
    map rank_point endpoints ++ map rank_fact (filter (λ o. encloses m o.line) operations)

abbrev pub effect_of : Ranked → Effect
effect_of r = r.1

unfoldable pub effects_of_method :
    List MessageEndpoint → List DataOperation → MethodNode → List Effect
unfolding ranked_leb ranked
effects_of_method endpoints operations m =
    map effect_of (sort ranked_leb (ranked endpoints operations m))

unfoldable pub effect_step : ℕ → Text → Effect → Option CodeFlowStep
effect_step order trigger_kind (Effect.point e) = endpoint_step e order
effect_step order trigger_kind (Effect.fact o) = some (operation_step o order trigger_kind)

unfoldable pub push_step :
    Option CodeFlowStep → Option (List CodeFlowStep) → Option (List CodeFlowStep)
push_step none steps = none
push_step (some s) none = none
push_step (some s) (some steps) = some (s ∷ steps)

-- enumerate(effects, start=order)
unfoldable pub effect_steps : ℕ → Text → List Effect → Option (List CodeFlowStep)
unfolding effect_step push_step
effect_steps order trigger_kind [] = some []
effect_steps order trigger_kind (e ∷ es) =
    push_step (effect_step order trigger_kind e) (effect_steps (suc order) trigger_kind es)

-- The flow over some effects, and none without effects.
unfoldable pub flow_over :
    (CodeFlowStep → List CodeFlowStep → CodeFlow)
    → Option CodeFlowStep
    → List Effect
    → Option (List CodeFlow)
unfolding effect_steps
flow_over build trigger [] = some []
flow_over build none (e ∷ es) = none
flow_over build (some s) (e ∷ es) = elim (effect_steps 2 s.kind (e ∷ es)) [
  | none ↦ none
  | some steps ↦ some (build s steps ∷ [])
]
