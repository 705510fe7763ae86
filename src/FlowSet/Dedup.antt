-- ===== src/FlowSet/Dedup.antt =====
-- _deduplicate_code_flows (indexing/code_flows.py). `repr` is Python's text of a key, by which the
-- groups are sorted.
pub mod Order
pub mod Laws
use systemlens.Prelude.{
  ℕ, Bool, true, false, ◌&&◌, ◌||◌, ◌↔◌, ◌≡◌, refl, Option, none, some, List, [], ◌∷◌,
  if◌then◌else◌, ◌==◌, filter, map, any, dedup, length, ltb, nat_beq, nat_beq_iff, Eq, option_beq,
  option_beq_iff, arith,
}
use systemlens.Prelude.Dict.{Dict, group_all}
use systemlens.Text.{Text, text_eq, text_beq, text_beq_iff, codes}
use systemlens.Text.Order.{sort, text_leb, text_ltb}
use systemlens.CodeFlows.{CodeFlow, CodeFlowStep}
use systemlens.CodeFlows.Internal.{EndpointsById}
use systemlens.CodeFlows.Tree.{flow_leb}
use systemlens.FlowSet.Anchors.{FlowKey, flow_key, flow_key_eq}

-- The part of a step that its route is compared by.
pub record StepShape : Type 0 where
  pub kind : Text
  pub name : Text
  pub path : Text
  pub start_line : ℕ
  pub end_line : ℕ
  pub endpoint_id : Option Text
  pub operation : Option Text

unfoldable pub step_shape : CodeFlowStep → StepShape
step_shape s = record {
  kind = s.kind;
  name = s.name;
  path = s.path;
  start_line = s.start_line;
  end_line = s.end_line;
  endpoint_id = s.endpoint_id;
  operation = s.operation;
}

unfoldable pub step_shape_beq : StepShape → StepShape → Bool
step_shape_beq a b =
    text_beq a.kind b.kind
    && text_beq a.name b.name
    && text_beq a.path b.path
    && nat_beq a.start_line b.start_line
    && nat_beq a.end_line b.end_line
    && option_beq a.endpoint_id b.endpoint_id
    && option_beq a.operation b.operation

step_shape_beq_iff : (a b : StepShape) → (step_shape_beq a b ≡ true) ↔ (a ≡ b)
unfolding step_shape_beq
step_shape_beq_iff a b = ground (
  arith,
  text_beq_iff a.kind b.kind,
  text_beq_iff a.name b.name,
  text_beq_iff a.path b.path,
  nat_beq_iff a.start_line b.start_line,
  nat_beq_iff a.end_line b.end_line,
  option_beq_iff a.endpoint_id b.endpoint_id,
  option_beq_iff a.operation b.operation,
)

unfoldable pub route_beq : List StepShape → List StepShape → Bool
unfolding step_shape_beq
route_beq [] [] = true
route_beq [] (b ∷ bs) = false
route_beq (a ∷ as') [] = false
route_beq (a ∷ as') (b ∷ bs) = step_shape_beq a b && route_beq as' bs

pub route_beq_iff : (a b : List StepShape) → (route_beq a b ≡ true) ↔ (a ≡ b)
unfolding route_beq
route_beq_iff [] [] = (λ _. refl, λ _. refl)
route_beq_iff [] (b ∷ bs) = ground arith
route_beq_iff (a ∷ as') [] = ground arith
route_beq_iff (a ∷ as') (b ∷ bs) = ground (arith, step_shape_beq_iff a b, route_beq_iff as' bs)

instance abbrev pub route_eq : Eq (List StepShape)
route_eq = record { beq = route_beq; beq_iff = route_beq_iff }

unfoldable pub route_signature : CodeFlow → List StepShape
unfolding step_shape
route_signature flow = map step_shape flow.steps

abbrev pub is_method_call : CodeFlowStep → Bool
is_method_call s = s.kind == codes "method_call"

-- confidence_rank.get(flow.confidence, 99)
unfoldable pub confidence_rank : Text → ℕ
confidence_rank confidence =
    if confidence == codes "high"
    then 0
    else if confidence == codes "medium"
    then 1
    else if confidence == codes "low"
    then 2
    else 99

unfoldable pub without_calls : CodeFlow → ℕ
without_calls flow = if any is_method_call flow.steps then 0 else 1

unfoldable pub rank_of : CodeFlow → ℕ
unfolding confidence_rank
rank_of flow = confidence_rank flow.confidence

unfoldable pub call_count : CodeFlow → ℕ
call_count flow = length (filter is_method_call flow.steps)

unfoldable pub step_count : CodeFlow → ℕ
step_count flow = length flow.steps

-- The order of the tuples that start with `f`, and that of the tuples that start with `-f`.
unfoldable pub rising : (CodeFlow → ℕ) → (CodeFlow → CodeFlow → Bool) → CodeFlow → CodeFlow → Bool
rising f next a b = ltb (f a) (f b) || (nat_beq (f a) (f b) && next a b)

unfoldable pub falling : (CodeFlow → ℕ) → (CodeFlow → CodeFlow → Bool) → CodeFlow → CodeFlow → Bool
falling f next a b = ltb (f b) (f a) || (nat_beq (f a) (f b) && next a b)

unfoldable pub id_ltb : CodeFlow → CodeFlow → Bool
id_ltb a b = text_ltb a.id b.id

-- The order of the keys of `min`.
unfoldable pub preferred : CodeFlow → CodeFlow → Bool
unfolding rising falling id_ltb without_calls rank_of call_count step_count
preferred = rising without_calls (rising rank_of (falling call_count (rising step_count id_ltb)))

-- min(parallel, key=...) keeps the first of the least.
unfoldable pub least : CodeFlow → List CodeFlow → CodeFlow
unfolding preferred
least best [] = best
least best (flow ∷ flows) = least (if preferred flow best then flow else best) flows

unfoldable pub represent : CodeFlow → List CodeFlow → CodeFlow
unfolding least route_signature
represent flow flows = record (least flow flows) {
  alternative_count = length (dedup (map route_signature (flow ∷ flows)));
}

-- sorted(grouped.items(), key=lambda item: repr(item[0]))
unfoldable pub by_repr : (FlowKey → Text) → FlowKey × List CodeFlow → FlowKey × List CodeFlow → Bool
by_repr repr p q = text_leb (repr p.0) (repr q.0)

-- No group of the loop is empty.
unfoldable pub selected : List (FlowKey × List CodeFlow) → List CodeFlow
unfolding represent
selected [] = []
selected ((key, []) ∷ items) = selected items
selected ((key, flow ∷ flows) ∷ items) = represent flow flows ∷ selected items

unfoldable pub grouped : EndpointsById → List CodeFlow → Dict FlowKey (List CodeFlow)
unfolding flow_key
grouped d flows = group_all (flow_key d) (λ flow. flow) [] flows

unfoldable pub deduplicate_code_flows :
    (FlowKey → Text) → EndpointsById → List CodeFlow → List CodeFlow
unfolding selected grouped by_repr
deduplicate_code_flows repr d flows =
    sort flow_leb (selected (sort (by_repr repr) (grouped d flows)))
