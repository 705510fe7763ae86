-- ===== src/FlowSet/Examples.antt =====
-- Runs over the flows of a small shop: a route stores an order and publishes it
-- (indexing/code_flows.py).
use systemlens.Prelude.{
  ℕ, ◌≡◌, ◌↔◌, ◌⊎◌, refl, Bool, true, false, Option, none, some, List, [], ◌∷◌, ◌++◌, map, Memᴰ,
  Distinct,
}
use systemlens.Prelude.Dict.{get, group, group_all, push}
use systemlens.Text.{Text, codes, text_beq}
use systemlens.Models.{MessageEndpoint, kafka, rest, produce, consume, serve}
use systemlens.DataOperations.{DataAction, DataOperation, action_facets}
use systemlens.Graph.Edges.{GraphEdge}
use systemlens.CodeFlows.{CodeFlow, CodeFlowStep, plain_step}
use systemlens.CodeFlows.Internal.{EndpointsById, by_id}
use systemlens.FlowSet.Anchors.{FlowKey, flow_key}
use systemlens.FlowSet.Dedup.{deduplicate_code_flows}
use systemlens.FlowSet.Combine.{combine_code_flows}
use systemlens.FlowSet.Combine.Laws.{Held, Anchored, combine_lem}
use systemlens.FlowSet.Reconcile.{reconciled, complete}
use systemlens.FlowSet.Steps.{operation_step, data_read, data_write, data_access}
use systemlens.FlowSet.Steps.Laws.{operation_steps, status-operations, kind_lem}
use systemlens.FlowSet.SameMethod.{
  Sources, Facts, Owned, indexed_paths, owned_of_file, materialize_code_flows,
}
use systemlens.FlowSet.SameMethod.Nodes.{MethodNode, is_trigger, module_of}
use systemlens.FlowSet.SameMethod.Effects.{Effect}
use systemlens.FlowSet.SameMethod.Flows.{IsChain, Leads}
use systemlens.FlowSet.SameMethod.Laws.{Reaches, materialize_lem}

abbrev point : Text → Text → Text → Text → MessageEndpoint
point id system role in_module = record {
  id = id;
  role = role;
  system = system;
  topic = codes "orders";
  topic_dynamic = false;
  source = codes "code";
  framework = none;
  path = codes "A.java";
  start_line = 3;
  end_line = 3;
  snippet = [];
  in_module = some in_module;
  qualified_name = some (codes "A");
  message_type = none;
  topic_display = none;
}

abbrev served : MessageEndpoint
served = point (codes "s") rest serve (codes "shop")

abbrev published : MessageEndpoint
published = point (codes "p") kafka produce (codes "shop")

abbrev consumed : MessageEndpoint
consumed = point (codes "c") kafka consume (codes "bills")

abbrev indexed : EndpointsById
indexed = (codes "s", served) ∷ (codes "p", published) ∷ (codes "c", consumed) ∷ []

abbrev topology : List GraphEdge
topology =
    record {
      kind = kafka;
      from_service = codes "shop";
      to_service = codes "bills";
      from_endpoint = published;
      to_endpoint = some consumed;
    }
    ∷ []

abbrev step : ℕ → Text → Text → CodeFlowStep
step order kind id = plain_step order kind (codes "orders") (codes "A.java") 3 3 (some id)

abbrev flow : Text → Text → List CodeFlowStep → CodeFlow
flow id confidence steps = record {
  id = id;
  in_module = codes "shop";
  method = codes "A.go";
  path = codes "A.java";
  start_line = 1;
  end_line = 9;
  status = codes "potential";
  confidence = confidence;
  reason = [];
  steps = steps;
  reconciliation = codes "unknown";
  alternative_count = 1;
}

abbrev direct : CodeFlow
direct =
    flow (codes "f") (codes "medium")
      (step 1 (codes "http_entry") (codes "s") ∷ step 2 (codes "message_publish") (codes "p") ∷ [])

abbrev routed : CodeFlow
routed = flow (codes "g") (codes "high") (
    step 1 (codes "http_entry") (codes "s")
    ∷ plain_step 2 (codes "method_call") (codes "B.go") (codes "A.java") 4 4 none
    ∷ step 3 (codes "message_publish") (codes "p")
    ∷ [])

-- The publication reaches its consumer over the topology.
direct_complete : (reconciled indexed topology direct).reconciliation ≡ complete
unfolding reconciled get text_beq group group_all push systemlens.Prelude.filter
    systemlens.Prelude.dedup systemlens.Prelude.contains systemlens.CodeFlows.Internal.is_output
    systemlens.CodeFlows.Internal.is_input
direct_complete = refl

abbrev text_of : FlowKey → Text
text_of key = key.in_module

-- The route with a call represents the two flows, which it counts as alternatives.
both_represented :
    map {B = Text × ℕ}
      (λ f. (f.id, f.alternative_count))
      (deduplicate_code_flows text_of indexed (direct ∷ routed ∷ []))
    ≡ (codes "g", 2) ∷ []
unfolding deduplicate_code_flows get text_beq group_all push systemlens.Prelude.filter
    systemlens.Prelude.dedup systemlens.Prelude.contains systemlens.Prelude.any
    systemlens.Prelude.option_beq systemlens.Text.Order.sort systemlens.Text.Order.insert
    systemlens.FlowSet.Anchors.flow_key_beq systemlens.FlowSet.Anchors.end_beq
    systemlens.FlowSet.Dedup.route_beq
both_represented = refl

abbrev digest_of : CodeFlow → Text
digest_of f = f.path

abbrev endpoints : List MessageEndpoint
endpoints = served ∷ published ∷ consumed ∷ []

combine_lem_example :
    (merged : List CodeFlow) × ((combine_code_flows digest_of text_of
          (direct ∷ [])
          (routed ∷ direct ∷ [])
          endpoints
        ≡ some merged)
      × (Distinct (map (λ f. f.id) merged)
          × ((flow : CodeFlow)
              → Memᴰ flow (direct ∷ [])
                ⊎ (Memᴰ flow (routed ∷ direct ∷ []) × (¬ Held (direct ∷ []) flow))
              → Anchored flow
              → (r : CodeFlow) × (Memᴰ r merged
                  × (flow_key (by_id [] endpoints) r ≡ flow_key (by_id [] endpoints) flow)))))
combine_lem_example = combine_lem digest_of text_of (direct ∷ []) (routed ∷ direct ∷ []) endpoints

abbrev stored : DataOperation
stored = record {
  id = codes "o";
  in_module = codes "shop";
  path = codes "A.java";
  owner_method = codes "go";
  line = 4;
  end_line = 4;
  technology = codes "jpa";
  operation = codes "save";
  action = DataAction.create_or_update;
  reads = false;
  writes = true;
  resource = some (codes "Order");
  resource_identity = some (codes "jpa:shop:Order");
  key_expression = none;
  key_property = none;
  key_identity = none;
  confidence = codes "medium";
  unresolved_reason = none;
  receiver = none;
  transaction_id = none;
  propagation = none;
  isolation = none;
  read_only = none;
  guard = none;
  guard_scope = none;
  value_dependencies = [];
}

status-operations_example :
    (reconciled indexed topology (record direct {
      steps = direct.steps ++ operation_steps (stored ∷ []) 3 (codes "http_entry");
    })).reconciliation
    ≡ (reconciled indexed topology direct).reconciliation
status-operations_example =
    status-operations indexed topology direct (stored ∷ []) 3 (codes "http_entry")

stored_facets : (stored.reads, stored.writes) ≡ action_facets stored.action
unfolding action_facets
stored_facets = refl

kind_lem_example :
    (((operation_step stored 3 (codes "http_entry")).kind ≡ data_write) ↔ (stored.writes ≡ true))
    × ((((operation_step stored 3 (codes "http_entry")).kind ≡ data_read)
          ↔ ((stored.reads ≡ true) × (stored.writes ≡ false)))
        × (((operation_step stored 3 (codes "http_entry")).kind ≡ data_access)
            ↔ (stored.action ≡ DataAction.unknown)))
kind_lem_example = kind_lem stored 3 (codes "http_entry") stored_facets

-- One file with one method, which owns the route and the publication.
abbrev sources : Sources
sources = record {
  parse = λ path. some (
      record {
        name = some (codes "go");
        start_line = 1;
        end_line = 9;
        size = 100;
        joins = false;
        schedule = none;
      }
      ∷ []);
  after_commit_lines = λ path. [];
  compute_code_flow_id = λ name path method kind topic. topic;
  digest = digest_of;
}

abbrev facts : Facts
facts = record { endpoints = served ∷ published ∷ []; operations = stored ∷ [] }

-- The store and the publication follow the route, in the order of their lines.
materialized :
    materialize_code_flows sources facts
    ≡ some (
        record (flow (codes "orders") (codes "medium") (
          step 1 (codes "http_entry") (codes "s")
          ∷ step 2 (codes "message_publish") (codes "p")
          ∷ operation_step stored 3 (codes "http_entry")
          ∷ [])) {
            reason = codes "The entry point and external effects occur in the same Java method.";
          }
        ∷ [])
unfolding materialize_code_flows operation_step get text_beq group group_all push
    systemlens.Prelude.filter systemlens.Prelude.dedup systemlens.Prelude.contains
    systemlens.Prelude.any systemlens.Prelude.option_beq systemlens.Prelude.pair_beq
    systemlens.Prelude.Gather.gather systemlens.Text.ends_with systemlens.Text.Order.sort
    systemlens.Text.Order.insert systemlens.Models.UniqueIds.ensure_unique_ids
    systemlens.Models.UniqueIds.ensure_unique_from systemlens.Models.UniqueIds.chosen_id
    systemlens.FlowSet.Combine.ensure_unique_code_flow_ids systemlens.Prelude.Gather.joined
    systemlens.FlowSet.SameMethod.endpoints_by_path systemlens.FlowSet.SameMethod.finished_or
    systemlens.FlowSet.SameMethod.owned_flows systemlens.FlowSet.SameMethod.owned_methods
    systemlens.FlowSet.SameMethod.Nodes.placed systemlens.FlowSet.SameMethod.Effects.flow_over
    systemlens.FlowSet.SameMethod.Effects.effects_of_method
    systemlens.FlowSet.SameMethod.Effects.effect_steps systemlens.FlowSet.Steps.endpoint_step
    systemlens.FlowSet.Steps.operation_sort_key systemlens.CodeFlows.Tree.flow_leb
    systemlens.FlowSet.SameMethod.Nodes.owner_of
materialized = refl

materialize_lem_example :
    (flows : List CodeFlow) × ((materialize_code_flows sources facts ≡ some flows)
      × (Distinct (map (λ f. f.id) flows)
          × (((f : CodeFlow) → Memᴰ f flows → IsChain f)
              × ((path : Text) (o : Owned) (t : MessageEndpoint) (e : Effect)
                  → Memᴰ path (indexed_paths facts)
                  → Memᴰ o (owned_of_file sources facts path)
                  → Memᴰ t o.endpoints
                  → is_trigger t ≡ true
                  → Reaches facts o t e
                  → (f : CodeFlow) × (Memᴰ f flows × Leads (module_of t) t e f)))))
materialize_lem_example = materialize_lem sources facts
