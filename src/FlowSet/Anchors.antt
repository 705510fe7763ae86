-- ===== src/FlowSet/Anchors.antt =====
-- The steps that identify a flow's ends, and the key under which flows are the same one
-- (indexing/code_flows.py).
use systemlens.Prelude.{
  ℕ, Bool, true, false, ◌&&◌, ◌||◌, ◌↔◌, ◌≡◌, Option, none, some, List, [], ◌∷◌, ◌++◌,
  if◌then◌else◌, ◌==◌, filter, contains, Eq, option_beq, option_beq_iff, option_eq, pair_eq, ℕ_eq,
  arith,
}
use systemlens.Text.{Text, text_eq, text_beq, text_beq_iff, codes}
use systemlens.Text.Decimal.{decimal}
use systemlens.CodeFlows.{CodeFlow, CodeFlowStep}
use systemlens.CodeFlows.Internal.{EndpointsById, data_step_kinds, last_or}
use systemlens.CodeFlows.Tree.{endpoint_or_none}

abbrev pub cron_entry : Text
cron_entry = codes "cron_entry"

-- bool(step.endpoint_id)
unfoldable pub names_endpoint : Option Text → Bool
names_endpoint none = false
names_endpoint (some []) = false
names_endpoint (some (c ∷ t)) = true

unfoldable pub anchor_steps : List CodeFlowStep → List CodeFlowStep
unfolding names_endpoint
anchor_steps steps = filter (λ s. names_endpoint s.endpoint_id || s.kind == cron_entry) steps

-- f"{step.kind}:{step.path}:{step.start_line}"
unfoldable pub place : CodeFlowStep → Text
place s = s.kind ++ codes ":" ++ s.path ++ codes ":" ++ decimal s.start_line

unfoldable pub step_anchor : CodeFlowStep → Text
unfolding place
step_anchor s =
    let at = place s in elim s.endpoint_id [ none ↦ at | some [] ↦ at | some (c ∷ t) ↦ c ∷ t ]

-- One end of a flow: its anchor, its topic, and the type of its messages.
pub record FlowEnd : Type 0 where
  pub anchor : Option Text
  pub topic : Option Text
  pub message_type : Option Text

pub record FlowKey : Type 0 where
  pub in_module : Text
  pub input : FlowEnd
  pub output : FlowEnd
  pub data_step : Option (Text × (ℕ × Option Text))
  pub status : Text
  -- flow.id for a flow without an anchor
  pub own_id : Option Text

unfoldable pub flow_end : EndpointsById → Option CodeFlowStep → FlowEnd
unfolding step_anchor endpoint_or_none
flow_end d none = record { anchor = none; topic = none; message_type = none }
flow_end d (some s) = elim (endpoint_or_none d s.endpoint_id) [
  | none ↦ record { anchor = some (step_anchor s); topic = some s.name; message_type = none }
  | some e ↦ record {
    anchor = some (step_anchor s);
    topic = some e.topic;
    message_type = e.message_type;
  }
]

unfoldable pub first_step : List CodeFlowStep → Option CodeFlowStep
first_step [] = none
first_step (s ∷ steps) = some s

unfoldable pub last_step : List CodeFlowStep → Option CodeFlowStep
unfolding last_or
last_step [] = none
last_step (s ∷ steps) = some (last_or s steps)

unfoldable pub data_of : Option CodeFlowStep → Option (Text × (ℕ × Option Text))
data_of none = none
data_of (some s) =
    if contains data_step_kinds s.kind then some (s.path, (s.start_line, s.operation)) else none

-- + (flow.id,) if not _anchor_steps(flow)
unfoldable pub id_unless_anchored : Text → List CodeFlowStep → Option Text
id_unless_anchored id [] = some id
id_unless_anchored id (s ∷ steps) = none

unfoldable pub flow_key : EndpointsById → CodeFlow → FlowKey
unfolding anchor_steps flow_end first_step last_step data_of id_unless_anchored
flow_key d flow = record {
  in_module = flow.in_module;
  input = flow_end d (first_step (anchor_steps flow.steps));
  output = flow_end d (last_step (anchor_steps flow.steps));
  data_step = data_of (last_step flow.steps);
  status = flow.status;
  own_id = id_unless_anchored flow.id (anchor_steps flow.steps);
}

unfoldable pub end_beq : FlowEnd → FlowEnd → Bool
end_beq a b =
    option_beq a.anchor b.anchor
    && option_beq a.topic b.topic
    && option_beq a.message_type b.message_type

pub end_beq_iff : (a b : FlowEnd) → (end_beq a b ≡ true) ↔ (a ≡ b)
unfolding end_beq
end_beq_iff a b = ground (
  arith,
  option_beq_iff a.anchor b.anchor,
  option_beq_iff a.topic b.topic,
  option_beq_iff a.message_type b.message_type,
)

unfoldable pub flow_key_beq : FlowKey → FlowKey → Bool
flow_key_beq a b =
    text_beq a.in_module b.in_module
    && end_beq a.input b.input
    && end_beq a.output b.output
    && option_beq a.data_step b.data_step
    && text_beq a.status b.status
    && option_beq a.own_id b.own_id

pub flow_key_beq_iff : (a b : FlowKey) → (flow_key_beq a b ≡ true) ↔ (a ≡ b)
unfolding flow_key_beq
flow_key_beq_iff a b = ground (
  arith,
  text_beq_iff a.in_module b.in_module,
  end_beq_iff a.input b.input,
  end_beq_iff a.output b.output,
  option_beq_iff a.data_step b.data_step,
  text_beq_iff a.status b.status,
  option_beq_iff a.own_id b.own_id,
)

instance abbrev pub flow_key_eq : Eq FlowKey
flow_key_eq = record { beq = flow_key_beq; beq_iff = flow_key_beq_iff }
