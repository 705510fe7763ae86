-- ===== src/FlowSet/Steps.antt =====
-- The steps of indexed facts: _endpoint_step, _data_access_branch, _operation_step and
-- _operation_sort_key (indexing/code_flows.py).
pub mod Laws
use systemlens.Prelude.{
  ℕ, Bool, true, false, ◌&&◌, Option, none, some, List, [], ◌∷◌, ◌++◌, if◌then◌else◌, ◌==◌, pair_eq,
}
use systemlens.Prelude.Dict.{Dict, get}
use systemlens.Text.{Text, text_eq, codes, rpartition}
use systemlens.Models.{MessageEndpoint, kafka, rest, produce, consume, serve, call}
use systemlens.DataOperations.{DataAction, DataOperation, is_unknown}
use systemlens.CodeFlows.{CodeFlowStep, plain_step}
use systemlens.FlowSet.Anchors.{cron_entry}

abbrev pub http_entry : Text
http_entry = codes "http_entry"

abbrev pub message_entry : Text
message_entry = codes "message_entry"

abbrev pub step_kinds : Dict (Text × Text) Text
step_kinds =
    ((rest, serve), http_entry)
    ∷ ((kafka, consume), message_entry)
    ∷ ((rest, call), codes "http_call")
    ∷ ((kafka, produce), codes "message_publish")
    ∷ []

abbrev pub scheduler_trigger : Text × Text
scheduler_trigger = (codes "scheduler", codes "trigger")

-- `none` is a KeyError.
unfoldable pub endpoint_step : MessageEndpoint → ℕ → Option CodeFlowStep
endpoint_step e order =
    if (e.system, e.role) == scheduler_trigger
    then some (plain_step order cron_entry e.topic e.path e.start_line e.end_line none)
    else elim (get step_kinds (e.system, e.role)) [
      | none ↦ none
      | some kind ↦ some (plain_step order kind e.topic e.path e.start_line e.end_line (some e.id))
    ]

unfoldable pub data_access_branch : Text → Bool → Option Text
data_access_branch trigger_kind true =
    if trigger_kind == message_entry then some (codes "async") else none
data_access_branch trigger_kind false =
    if trigger_kind == http_entry then some (codes "sync") else none

abbrev pub data_read : Text
data_read = codes "data_read"

abbrev pub data_write : Text
data_write = codes "data_write"

abbrev pub data_access : Text
data_access = codes "data_access"

unfoldable pub kind_for : DataAction → Bool → Text
unfolding is_unknown
kind_for action writes =
    if is_unknown action then data_access else if writes then data_write else data_read

unfoldable pub operation_kind : DataOperation → Text
unfolding kind_for
operation_kind o = kind_for o.action o.writes

-- The value of the Literal type.
unfoldable pub action_text : DataAction → Text
action_text DataAction.read = codes "read"
action_text DataAction.insert = codes "insert"
action_text DataAction.update = codes "update"
action_text DataAction.delete = codes "delete"
action_text DataAction.create_or_update = codes "create_or_update"
action_text DataAction.read_update = codes "read_update"
action_text DataAction.unknown = codes "unknown"

-- operation.resource or "<dynamic>"
unfoldable pub or_dynamic : Option Text → Text
or_dynamic none = codes "<dynamic>"
or_dynamic (some []) = codes "<dynamic>"
or_dynamic (some (c ∷ t)) = c ∷ t

-- The name of an operation, and the resource that its step names.
unfoldable pub name_and_resource : DataOperation → Text × Option Text
unfolding or_dynamic
name_and_resource o =
    if o.technology == codes "mongodb"
    then (or_dynamic o.resource, o.resource)
    else elim o.resource [
      | none ↦ (codes "<unresolved>", none)
      | some r ↦ ((rpartition b'.' r).1, o.resource_identity)
    ]

unfoldable pub operation_step : DataOperation → ℕ → Text → CodeFlowStep
unfolding operation_kind name_and_resource data_access_branch action_text
operation_step o order trigger_kind =
    record (plain_step order (operation_kind o) (name_and_resource o).0 o.path o.line o.end_line
      none) {
        operation = some o.operation;
        action = some (action_text o.action);
        key = o.key_expression;
        resource = (name_and_resource o).1;
        resource_identity = o.resource_identity;
        key_identity = o.key_identity;
        branch =
            if operation_kind o == data_access
            then none
            else data_access_branch trigger_kind (operation_kind o == data_write);
        transaction_id = o.transaction_id;
        isolation = o.isolation;
        guard = o.guard;
        guard_scope = o.guard_scope;
        value_dependencies = o.value_dependencies;
        operation_id = some o.id;
      }

-- operation.resource or ''
unfoldable pub or_empty : Option Text → Text
or_empty none = []
or_empty (some r) = r

unfoldable pub operation_sort_key : DataOperation → ℕ × Text
unfolding or_empty
operation_sort_key o =
    (o.line, o.technology ++ codes ":" ++ o.operation ++ codes ":" ++ or_empty o.resource)
