-- ===== src/CodeFlows/Examples.antt =====
-- Runs over two flows of code: a route of the shop publishes a topic that the bills consume
-- (application/code_flows.py).
use systemlens.Prelude.{
  ℕ, ◌≡◌, refl, Bool, true, false, Option, none, some, List, [], ◌∷◌, ◌↔◌, Memᴰ, filter, length,
  contains, dedup, all, option_eq, Eq, pair_eq,
}
use systemlens.Prelude.Dict.{get, group, push, put}
use systemlens.Text.{Text, codes, text_beq}
use systemlens.Text.Order.{sort}
use systemlens.Models.{MessageEndpoint, kafka, rest, produce, consume, serve}
use systemlens.CodeFlows.{CodeFlow, CodeFlowStep, plain_step}
use systemlens.CodeFlows.Internal.{EndpointsById, is_internal_module_flow}
use systemlens.CodeFlows.Internal.Exact.{InternalTo, internal_iff}
use systemlens.CodeFlows.Tree.{flow_children, build_flow_index}
use systemlens.CodeFlows.Tree.Laws.{Continues, children_sound}

abbrev point : Text → Text → Text → Text → MessageEndpoint
point id role system in_module = record {
  id = id;
  role = role;
  system = system;
  topic = codes "orders";
  topic_dynamic = false;
  source = codes "code";
  framework = none;
  path = codes "A.java";
  start_line = 1;
  end_line = 2;
  snippet = [];
  in_module = some in_module;
  qualified_name = none;
  message_type = none;
  topic_display = none;
}

abbrev indexed : EndpointsById
indexed =
    (codes "s", point (codes "s") serve rest (codes "shop"))
    ∷ (codes "p", point (codes "p") produce kafka (codes "shop"))
    ∷ (codes "c", point (codes "c") consume kafka (codes "bills"))
    ∷ []

abbrev step : Text → Text → CodeFlowStep
step kind id = plain_step 0 kind (codes "orders") (codes "A.java") 1 1 (some id)

abbrev flow : Text → Text → List CodeFlowStep → CodeFlow
flow id in_module steps = record {
  id = id;
  in_module = in_module;
  method = codes "A.go";
  path = codes "A.java";
  start_line = 1;
  end_line = 9;
  status = codes "complete";
  confidence = codes "high";
  reason = [];
  steps = steps;
  reconciliation = codes "unknown";
  alternative_count = 1;
}

abbrev selling : CodeFlow
selling =
    flow (codes "f") (codes "shop")
      (step (codes "http_entry") (codes "s") ∷ step (codes "message_publish") (codes "p") ∷ [])

abbrev billing : CodeFlow
billing = flow (codes "g") (codes "bills") (step (codes "message_entry") (codes "c") ∷ [])

selling_internal : is_internal_module_flow selling indexed (codes "shop") ≡ true
unfolding is_internal_module_flow text_beq get contains all systemlens.Prelude.option_beq
selling_internal = refl

internal_iff_example :
    (is_internal_module_flow selling indexed (codes "shop") ≡ true)
    ↔ InternalTo selling indexed (codes "shop")
internal_iff_example = internal_iff selling indexed (codes "shop")

billing_continues :
    Memᴰ billing
      (flow_children indexed (build_flow_index indexed [] (selling ∷ billing ∷ [])) selling)
unfolding flow_children text_beq sort dedup contains get filter group build_flow_index push
    systemlens.Prelude.pair_beq put systemlens.Text.Order.insert
billing_continues = Memᴰ.head refl

children_sound_example : Continues indexed (selling ∷ billing ∷ []) selling billing
children_sound_example =
    children_sound indexed (selling ∷ billing ∷ []) selling billing billing_continues
