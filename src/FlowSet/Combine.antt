-- ===== src/FlowSet/Combine.antt =====
-- without_same_method_duplicates and combine_code_flows (indexing/code_flows.py), with
-- ensure_unique_code_flow_ids (domain/code_flows.py). `digest` is the first eight characters of the
-- SHA-256 of a flow's fields.
pub mod Laws
use systemlens.Prelude.{
  ℕ, Bool, true, false, ◌&&◌, ◌||◌, not, ◌↔◌, ◌≡◌, refl, Option, none, some, List, [], ◌∷◌, ◌++◌,
  if◌then◌else◌, filter, map, any, all, contains, nat_beq, nat_beq_iff, Eq, option_beq,
  option_beq_iff, pair_eq, arith,
}
use systemlens.Text.{Text, text_eq, text_beq, text_beq_iff, codes}
use systemlens.Models.{MessageEndpoint}
use systemlens.Models.UniqueIds.{Identified, ensure_unique_ids}
use systemlens.CodeFlows.{CodeFlow, CodeFlowStep}
use systemlens.CodeFlows.Internal.{by_id}
use systemlens.FlowSet.Anchors.{FlowKey, step_anchor}
use systemlens.FlowSet.Dedup.{is_method_call, deduplicate_code_flows}

-- The tuple that identifies an effect.
pub data EffectAnchor : Type 0 where
  endpoint : Text → EffectAnchor
  data_operation : Text → EffectAnchor
  site : Text → Text → ℕ → Option Text → EffectAnchor

unfoldable pub effect_anchor : CodeFlowStep → EffectAnchor
effect_anchor s = elim s.endpoint_id [
  | some id ↦ endpoint id
  | none ↦ elim s.operation_id [
    | some id ↦ data_operation id
    | none ↦ site s.kind s.path s.start_line s.operation
  ]
]

unfoldable pub effect_beq : EffectAnchor → EffectAnchor → Bool
effect_beq (endpoint a) (endpoint b) = text_beq a b
effect_beq (endpoint a) (data_operation b) = false
effect_beq (endpoint a) (site k p n o) = false
effect_beq (data_operation a) (endpoint b) = false
effect_beq (data_operation a) (data_operation b) = text_beq a b
effect_beq (data_operation a) (site k p n o) = false
effect_beq (site k p n o) (endpoint b) = false
effect_beq (site k p n o) (data_operation b) = false
effect_beq (site k p n o) (site l q m r) =
    text_beq k l && text_beq p q && nat_beq n m && option_beq o r

pub effect_beq_iff : (a b : EffectAnchor) → (effect_beq a b ≡ true) ↔ (a ≡ b)
unfolding effect_beq
effect_beq_iff (endpoint a) (endpoint b) = ground (arith, text_beq_iff a b)
effect_beq_iff (endpoint a) (data_operation b) = ground arith
effect_beq_iff (endpoint a) (site k p n o) = ground arith
effect_beq_iff (data_operation a) (endpoint b) = ground arith
effect_beq_iff (data_operation a) (data_operation b) = ground (arith, text_beq_iff a b)
effect_beq_iff (data_operation a) (site k p n o) = ground arith
effect_beq_iff (site k p n o) (endpoint b) = ground arith
effect_beq_iff (site k p n o) (data_operation b) = ground arith
effect_beq_iff (site k p n o) (site l q m r) =
    ground (arith, text_beq_iff k l, text_beq_iff p q, nat_beq_iff n m, option_beq_iff o r)

instance abbrev pub effect_eq : Eq EffectAnchor
effect_eq = record { beq = effect_beq; beq_iff = effect_beq_iff }

-- The trigger of a flow, beside each of its later steps.
unfoldable pub effects_of : List CodeFlowStep → List (Text × EffectAnchor)
unfolding effect_anchor
effects_of [] = []
effects_of (s ∷ steps) = map (λ t. (step_anchor s, effect_anchor t)) steps

unfoldable pub covered : List CodeFlow → List (Text × EffectAnchor)
unfolding effects_of
covered [] = []
covered (flow ∷ flows) = effects_of flow.steps ++ covered flows

unfoldable pub keeps_steps : List (Text × EffectAnchor) → List CodeFlowStep → Bool
keeps_steps held [] = true
keeps_steps held (s ∷ steps) =
    any is_method_call (s ∷ steps) || not (all (contains held) (effects_of (s ∷ steps)))

unfoldable pub is_kept : List (Text × EffectAnchor) → CodeFlow → Bool
unfolding keeps_steps
is_kept held flow = keeps_steps held flow.steps

unfoldable pub without_same_method_duplicates : List CodeFlow → List CodeFlow → List CodeFlow
unfolding covered is_kept
without_same_method_duplicates source_flows call_graph_flows =
    filter (is_kept (covered source_flows)) call_graph_flows

unfoldable pub code_flow_ids : (CodeFlow → Text) → Identified CodeFlow
code_flow_ids digest = record {
  id = λ f. f.id;
  with_id = λ t f. record f { id = t };
  id-with_id = λ t f. refl;
  digest = digest;
}

unfoldable pub ensure_unique_code_flow_ids :
    (CodeFlow → Text) → List CodeFlow → Option (List CodeFlow)
unfolding code_flow_ids
ensure_unique_code_flow_ids digest flows = ensure_unique_ids (code_flow_ids digest) flows

unfoldable pub combine_code_flows :
    (CodeFlow → Text)
    → (FlowKey → Text)
    → List CodeFlow
    → List CodeFlow
    → List MessageEndpoint
    → Option (List CodeFlow)
unfolding ensure_unique_code_flow_ids without_same_method_duplicates
combine_code_flows digest repr source_flows call_graph_flows endpoints =
    ensure_unique_code_flow_ids digest (
      deduplicate_code_flows repr (by_id [] endpoints)
        (source_flows ++ without_same_method_duplicates source_flows call_graph_flows))
