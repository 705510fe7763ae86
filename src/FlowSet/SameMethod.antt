-- ===== src/FlowSet/SameMethod.antt =====
-- materialize_code_flows (indexing/code_flows.py): the flows whose trigger and effects share one
-- method. What the Java parser reads of a file is a parameter, as are the hash of a flow's
-- coordinate and the digest of its fields.
pub mod Nodes
pub mod Effects
pub mod Marks
pub mod Finish
pub mod Chains
pub mod Flows
pub mod Laws
use systemlens.Prelude.{
  ℕ, suc, Bool, true, false, ◌&&◌, ◌||◌, not, Option, none, some, List, [], ◌∷◌, ◌++◌,
  if◌then◌else◌, ◌==◌, any, contains, dedup, filter, leb, length, ltb, map, nat_beq, pair_eq,
  option_eq, ℕ_eq,
}
use systemlens.Prelude.Dict.{Dict, group, group_all, keys}
use systemlens.Prelude.Gather.{gather, joined}
use systemlens.Text.{Text, text_eq, codes, ends_with}
use systemlens.Text.Order.{sort, text_leb}
use systemlens.Models.{MessageEndpoint, kafka, rest, produce, consume, serve, call}
use systemlens.DataOperations.{DataOperation}
use systemlens.CodeFlows.{CodeFlow, CodeFlowStep, plain_step}
use systemlens.CodeFlows.Tree.{flow_leb}
use systemlens.FlowSet.Anchors.{cron_entry}
use systemlens.FlowSet.Combine.{ensure_unique_code_flow_ids}
use systemlens.FlowSet.Steps.{endpoint_step, operation_step, operation_sort_key}
use systemlens.FlowSet.SameMethod.Nodes.{
  MethodNode, is_trigger, is_effect, module_of, is_candidate, encloses, Placed, placed, smallest,
  owner_of, local_endpoints,
}
use systemlens.FlowSet.SameMethod.Effects.{
  Effect, Ranked, ranked_leb, rank_point, rank_fact, ranked, effect_of, effects_of_method,
  effect_step, push_step, effect_steps, flow_over, Effect.point, Effect.fact,
}
use systemlens.FlowSet.SameMethod.Marks.{mark_after_commit_publications}

pub record Sources : Type 0 where
  -- The methods of a file; `none` for a file that parse_java refuses.
  pub parse : Text → Option (List MethodNode)
  pub after_commit_lines : Text → List (ℕ × ℕ)
  pub compute_code_flow_id : Text → Text → Text → Text → Text → Text
  pub digest : CodeFlow → Text

unfoldable pub endpoints_by_path : List MessageEndpoint → Dict Text (List MessageEndpoint)
unfolding is_candidate
endpoints_by_path endpoints = group_all (λ e. e.path) (λ e. e) [] (filter is_candidate endpoints)

-- module, path, owner_method
abbrev pub OperationsByMethod : Type 0
OperationsByMethod = Dict (Text × (Text × Text)) (List DataOperation)

unfoldable pub operations_by_method : List DataOperation → OperationsByMethod
operations_by_method operations =
    group_all (λ o. (o.in_module, (o.path, o.owner_method))) (λ o. o) [] operations

unfoldable pub operation_modules : List DataOperation → Text → Text → List Text
operation_modules operations path name = dedup (
    group {K = Text × Text}
      (group_all (λ o. (o.path, o.owner_method)) (λ o. o.in_module) [] operations) (path, name))

-- f"{qualified_name}.{method_name}" if qualified_name else method_name
unfoldable pub qualified : Option Text → Text → Text
qualified none name = name
qualified (some []) name = name
qualified (some (c ∷ t)) name = (c ∷ t) ++ codes "." ++ name

unfoldable pub has_kafka_join : MethodNode → List MessageEndpoint → Bool
has_kafka_join m triggers = ltb 1 (length (filter (λ e. e.system == kafka) triggers)) && m.joins

-- The flow of a method from its trigger's step, over its effects.
unfoldable pub flow_from :
    Sources
    → Text
    → MethodNode
    → Text
    → Text
    → Text
    → Text
    → CodeFlowStep
    → List CodeFlowStep
    → CodeFlow
flow_from b path m name qualified_method topic reason trigger steps = record {
  id = b.compute_code_flow_id name path qualified_method trigger.kind topic;
  in_module = name;
  method = qualified_method;
  path = path;
  start_line = m.start_line;
  end_line = m.end_line;
  status = codes "potential";
  confidence = codes "medium";
  reason = reason;
  steps = trigger ∷ steps;
  reconciliation = codes "unknown";
  alternative_count = 1;
}

abbrev pub joined_reason : Text
joined_reason =
    codes
      "This method joins multiple indexed Kafka inputs before the publication; the path remains conditional and potential."

abbrev pub same_method_reason : Text
same_method_reason = codes "The entry point and external effects occur in the same Java method."

abbrev pub scheduled_reason : Text
scheduled_reason =
    codes "A scheduled Java method has source-backed effects; the scheduler is the flow trigger."

-- The indexed facts of a project.
pub record Facts : Type 0 where
  pub endpoints : List MessageEndpoint
  pub operations : List DataOperation

-- A method under its name, with the endpoints that it owns.
pub record Owned : Type 0 where
  pub path : Text
  pub node : MethodNode
  pub method_name : Text
  pub endpoints : List MessageEndpoint

unfoldable pub operations_at : Facts → Text → Owned → List DataOperation
unfolding operations_by_method
operations_at facts name o =
    group (operations_by_method facts.operations) (name, (o.path, o.method_name))

unfoldable pub trigger_effects : Facts → Owned → MessageEndpoint → List Effect
unfolding effects_of_method operations_at module_of
trigger_effects facts o trigger =
    effects_of_method (filter (λ e. not (e.id == trigger.id)) (filter is_effect o.endpoints))
      (operations_at facts (module_of trigger) o) o.node

unfoldable pub trigger_build :
    Sources → Owned → MessageEndpoint → CodeFlowStep → List CodeFlowStep → CodeFlow
unfolding flow_from qualified has_kafka_join module_of
trigger_build b o trigger =
    flow_from b o.path o.node (module_of trigger) (qualified trigger.qualified_name o.method_name)
      trigger.topic
      (if has_kafka_join o.node (filter is_trigger o.endpoints) && trigger.system == kafka
        then joined_reason
        else same_method_reason)

unfoldable pub trigger_flow : Sources → Facts → Owned → MessageEndpoint → Option (List CodeFlow)
unfolding trigger_effects flow_over trigger_build
trigger_flow b facts o trigger =
    flow_over (trigger_build b o trigger) (endpoint_step trigger 1)
      (trigger_effects facts o trigger)

-- _scheduled_trigger_step
unfoldable pub scheduled_step : Owned → Text → CodeFlowStep
scheduled_step o label =
    plain_step 1 cron_entry label o.path o.node.start_line o.node.start_line none

-- The module and the qualified name of a scheduled method's class, by its first effect; by the
-- one module with operations of the method.
unfoldable pub scheduled_owner : Facts → Owned → Option (Text × Option Text)
unfolding module_of operation_modules
scheduled_owner facts o = elim (filter is_effect o.endpoints) [
  | producer ∷ es ↦ some (module_of producer, producer.qualified_name)
  | [] ↦ elim (operation_modules facts.operations o.path o.method_name) [
    | [] ↦ none
    | name ∷ others ↦ elim others [ [] ↦ some (name, none) | n ∷ ns ↦ none ]
  ]
]

unfoldable pub scheduled_build :
    Sources → Owned → Text → Text → Option Text → CodeFlowStep → List CodeFlowStep → CodeFlow
unfolding flow_from qualified
scheduled_build b o label name qualified_name =
    flow_from b o.path o.node name (qualified qualified_name o.method_name) label scheduled_reason

unfoldable pub scheduled_effects : Facts → Owned → Text → List Effect
unfolding effects_of_method operations_at
scheduled_effects facts o name =
    effects_of_method (filter is_effect o.endpoints) (operations_at facts name o) o.node

unfoldable pub scheduled_from :
    Sources → Facts → Owned → Text → Option (Text × Option Text) → Option (List CodeFlow)
unfolding scheduled_step flow_over scheduled_build scheduled_effects
scheduled_from b facts o label none = some []
scheduled_from b facts o label (some (name, qualified_name)) =
    flow_over (scheduled_build b o label name qualified_name) (some (scheduled_step o label))
      (scheduled_effects facts o name)

unfoldable pub scheduled_by : Sources → Facts → Owned → Option Text → Option (List CodeFlow)
unfolding scheduled_from scheduled_owner
scheduled_by b facts o none = some []
scheduled_by b facts o (some label) = scheduled_from b facts o label (scheduled_owner facts o)

unfoldable pub scheduled_flow : Sources → Facts → Owned → Option (List CodeFlow)
unfolding scheduled_by
scheduled_flow b facts o = scheduled_by b facts o o.node.schedule

unfoldable pub owned_flows : Sources → Facts → Owned → Option (List CodeFlow)
unfolding trigger_flow scheduled_flow
owned_flows b facts o =
    joined (gather (trigger_flow b facts o) (filter is_trigger o.endpoints))
      (scheduled_flow b facts o)

-- The named methods of a file.
unfoldable pub owned_methods : Text → List MessageEndpoint → List Placed → List Placed → List Owned
unfolding local_endpoints
owned_methods path endpoints methods [] = []
owned_methods path endpoints methods (m ∷ ms) =
    let rest = owned_methods path endpoints methods ms in
    elim m.1.name [
      | none ↦ rest
      | some name ↦
          record {
            path = path;
            node = m.1;
            method_name = name;
            endpoints = local_endpoints methods m.0 endpoints;
          }
          ∷ rest
    ]

unfoldable pub owned_of_file : Sources → Facts → Text → List Owned
unfolding owned_methods endpoints_by_path
owned_of_file b facts path = elim (b.parse path) [
  | none ↦ []
  | some nodes ↦
      owned_methods path (group (endpoints_by_path facts.endpoints) path) (placed 0 nodes)
        (placed 0 nodes)
]

unfoldable pub indexed_paths : Facts → List Text
unfolding endpoints_by_path operations_by_method
indexed_paths facts = sort text_leb (
    dedup (
      keys (endpoints_by_path facts.endpoints)
      ++ map (λ (k : Text × (Text × Text)). k.1.0) (keys (operations_by_method facts.operations))))

unfoldable pub file_flows : Sources → Facts → Text → Option (List CodeFlow)
unfolding owned_flows owned_of_file
file_flows b facts path = gather (owned_flows b facts) (owned_of_file b facts path)

unfoldable pub finished : Sources → List CodeFlow → Option (List CodeFlow)
unfolding mark_after_commit_publications
finished b flows =
    ensure_unique_code_flow_ids b.digest
      (sort flow_leb (mark_after_commit_publications b.after_commit_lines flows))

unfoldable pub finished_or : Sources → Option (List CodeFlow) → Option (List CodeFlow)
unfolding finished
finished_or b none = none
finished_or b (some flows) = finished b flows

-- `none` is an exception.
unfoldable pub materialize_code_flows : Sources → Facts → Option (List CodeFlow)
unfolding file_flows finished_or indexed_paths
materialize_code_flows b facts = finished_or b (gather (file_flows b facts) (indexed_paths facts))
