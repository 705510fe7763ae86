-- ===== src/CodeFlows.antt =====
-- domain/code_flows.py: persisted flows of code and the persisted call graph.
pub mod Dispatch
mod Examples
pub mod Internal
pub mod Modules
pub mod Tree
pub mod Search
pub mod Summary
use systemlens.Prelude.{
  ℕ, Bool, true, false, ◌||◌, not, Option, none, some, List, [], ◌∷◌, if◌then◌else◌, ◌==◌, filter,
  map, contains, dedup, length, ltb,
}
use systemlens.Text.{Text, text_eq, codes, rpartition}

pub record CodeFlowStep : Type 0 where
  pub order : ℕ
  pub kind : Text
  pub name : Text
  pub path : Text
  pub start_line : ℕ
  pub end_line : ℕ
  pub endpoint_id : Option Text
  pub operation : Option Text
  pub branch : Option Text
  pub resource : Option Text
  pub key : Option Text
  pub causal_id : Option Text
  pub expected_version : Option Text
  pub completion : Option Text
  pub query_shape : Option Text
  pub action : Option Text
  pub phase : Option Text
  pub transaction_id : Option Text
  pub concurrency : Option Text
  pub fields : List Text
  pub value_dependencies : List Text
  pub guard : Option Text
  pub guard_scope : Option Text
  pub isolation : Option Text
  pub freshness_required : Option Bool
  pub visibility_before_reads : List Text
  pub request_before_reads : List Text
  pub resource_identity : Option Text
  pub key_identity : Option Text
  pub operation_id : Option Text

-- A step with the source's defaults for the optional fields.
abbrev pub plain_step : ℕ → Text → Text → Text → ℕ → ℕ → Option Text → CodeFlowStep
plain_step order kind name path start_line end_line endpoint_id = record {
  order = order;
  kind = kind;
  name = name;
  path = path;
  start_line = start_line;
  end_line = end_line;
  endpoint_id = endpoint_id;
  operation = none;
  branch = none;
  resource = none;
  key = none;
  causal_id = none;
  expected_version = none;
  completion = none;
  query_shape = none;
  action = none;
  phase = none;
  transaction_id = none;
  concurrency = none;
  fields = [];
  value_dependencies = [];
  guard = none;
  guard_scope = none;
  isolation = none;
  freshness_required = none;
  visibility_before_reads = [];
  request_before_reads = [];
  resource_identity = none;
  key_identity = none;
  operation_id = none;
}

pub record CodeFlow : Type 0 where
  pub id : Text
  pub in_module : Text
  pub method : Text
  pub path : Text
  pub start_line : ℕ
  pub end_line : ℕ
  pub status : Text
  pub confidence : Text
  pub reason : Text
  pub steps : List CodeFlowStep
  pub reconciliation : Text
  pub alternative_count : ℕ

pub record IntegrationMethod : Type 0 where
  pub id : Text
  pub in_module : Text
  pub qualified_method : Text
  pub path : Text
  pub start_line : ℕ
  pub end_line : ℕ
  pub input_endpoint_ids : List Text
  pub output_endpoint_ids : List Text
  pub parameter_types : Option (List Text)

pub record CallGraphEdge : Type 0 where
  pub caller_id : Text
  pub callee_id : Text
  pub path : Text
  pub line : ℕ
  pub dispatch_confidence : Text
  pub inferred : Bool

unfoldable pub owner : Text → Text
owner method = (rpartition b'.' method).0

unfoldable pub simple_name : Text → Text
simple_name method = (rpartition b'.' method).1

-- The owners of the callees of the call site that have the name of the callee.
unfoldable pub overrides : Text → List Text → List Text
unfolding owner simple_name
overrides callee_method call_site_callees =
    dedup (map owner (filter (λ c. simple_name c == simple_name callee_method) call_site_callees))

unfoldable pub entry_dispatch_allowed : Text → Text → Text → List Text → Bool
unfolding overrides
entry_dispatch_allowed entry_method caller_method callee_method call_site_callees =
    let owners = overrides callee_method call_site_callees in
    if owner caller_method == owner entry_method
    then true
    else if ltb (length owners) 2 || not (contains owners (owner entry_method))
    then true
    else owner callee_method == owner entry_method
