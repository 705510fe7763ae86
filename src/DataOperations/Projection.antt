-- ===== src/DataOperations/Projection.antt =====
-- domain/data_operation_projection.py: the module inventory of an older index as data operations.
-- Of a module and its inventories the fields that the projection and build_architecture_relations read are modelled. `identify` is
-- compute_data_operation_id, a SHA-256 hash; `builders` are the texts that _UPDATE_BUILDER finds in
-- a snippet; `locate` is _repository_path, which reads the file system.
use systemlens.Prelude.{
  ℕ, Bool, true, false, ◌&&◌, ◌||◌, not, Option, none, some, List, [], ◌∷◌, ◌++◌, if◌then◌else◌,
  ◌==◌, all, contains, filter_map, map, flat_map,
}
use systemlens.Text.{Text, text_eq, codes, lower, infix_of, starts_with}
use systemlens.MongoOperations.{MongoAction, mongo_action}
use systemlens.DataOperations.{
  DataAction, DataOperation, action_facets, crud_action, literal_key_identity, sort_data_operations,
}

pub record SourceEvidence : Type 0 where
  pub start_line : ℕ
  pub end_line : ℕ
  pub snippet : Text
  pub source_hash : Text

pub record MongoMethod : Type 0 where
  pub operation : Text
  pub receiver : Text
  pub path : Text
  pub line : ℕ
  pub collection : Option Text
  pub evidence : Option SourceEvidence
  pub owner_method : Option Text
  pub key_expression : Text

pub record JpaEntity : Type 0 where
  pub qualified_name : Text
  pub path : Text
  pub line : ℕ

pub record JpaMethod : Type 0 where
  pub operation : Text
  pub entity : Text
  pub receiver : Text
  pub path : Text
  pub line : ℕ
  pub owner_method : Text
  pub key_expression : Text

pub record DiscoveredModule : Type 0 where
  pub name : Text
  pub identity : Text
  pub starts_application : Bool
  pub mongo_methods : List MongoMethod
  pub jpa_entities : List JpaEntity
  pub jpa_methods : List JpaMethod
  pub data_operations : List DataOperation

-- module.identity or module.name
unfoldable pub module_identity : DiscoveredModule → Text
module_identity m = elim m.identity [ [] ↦ m.name | c ∷ t ↦ c ∷ t ]

-- `x or None` of a text, and of a text that may be absent
unfoldable pub or_none : Text → Option Text
or_none [] = none
or_none (c ∷ t) = some (c ∷ t)

unfoldable pub or_absent : Option Text → Option Text
or_absent none = none
or_absent (some []) = none
or_absent (some (c ∷ t)) = some (c ∷ t)

unfoldable pub data_action : MongoAction → DataAction
data_action MongoAction.read = DataAction.read
data_action MongoAction.insert = DataAction.insert
data_action MongoAction.update = DataAction.update
data_action MongoAction.delete = DataAction.delete
data_action MongoAction.create_or_update = DataAction.create_or_update
data_action MongoAction.read_update = DataAction.read_update

-- The parameters of the projection.
pub record Outside : Type 0 where
  pub identify : Text → Text → Text → ℕ → Text → Text → Text
  pub builders : Text → List Text
  pub is_java_literal : Text → Bool
  pub locate : DiscoveredModule → Text → Text

abbrev pub atomic_builders : List Text
atomic_builders = codes "inc" ∷ codes "currentDate" ∷ []

is_empty : List Text → Bool
is_empty [] = true
is_empty (x ∷ xs) = false

-- None if identity else "collection expression is dynamic"
unfoldable pub reason_unless : Option Text → Option Text
reason_unless none = some (codes "collection expression is dynamic")
reason_unless (some identity) = none

-- "operation" if guard else None
unfoldable pub scope_of : Option Text → Option Text
scope_of none = none
scope_of (some guard) = some (codes "operation")

-- `crud or default`
unfoldable pub action_or : DataAction → Option DataAction → DataAction
action_or default none = default
action_or default (some action) = action

unfoldable pub jpa_action : Text → DataAction
unfolding action_or
jpa_action operation =
    action_or
      (if starts_with (codes "delete") operation
        then DataAction.delete
        else DataAction.create_or_update)
      (crud_action operation)

-- if operations: ...; continue
unfoldable pub first_nonempty : List DataOperation → List DataOperation → List DataOperation
first_nonempty [] others = others
first_nonempty (o ∷ os) others = o ∷ os

module _ (b : Outside) where
  atomic_snippet : Text → Bool
  atomic_snippet snippet =
      let used = b.builders snippet in
      (not (is_empty used) && all (contains atomic_builders) used)
      || (contains used (codes "set") && infix_of (codes "version") (lower snippet))

  unfoldable pub mongo_atomic_guard : Text → Option Text → Option Text
  unfolding atomic_snippet or_absent is_empty
  mongo_atomic_guard operation snippet =
      if operation == codes "findAndModify" || operation == codes "upsert"
      then some (codes "atomic_update")
      else if not (operation == codes "updateFirst" || operation == codes "updateMulti")
      then none
      else elim (or_absent snippet) [
        | none ↦ none
        | some s ↦ if atomic_snippet s then some (codes "atomic_update") else none
      ]

  -- The operation of a method whose action and owner are known.
  unfoldable pub mongo_fact : MongoMethod → Text → Text → DataAction → Text → DataOperation
  unfolding mongo_atomic_guard or_none or_absent reason_unless scope_of
  mongo_fact method name path action owner =
      let identity : Option Text = elim (or_absent method.collection) [
        | none ↦ none
        | some c ↦ some (codes "mongo:" ++ name ++ codes ":" ++ c)
      ] in
      let guard =
        mongo_atomic_guard method.operation
          (elim method.evidence [ none ↦ none | some e ↦ some e.snippet ]) in
      record {
        id = b.identify name path owner method.line (codes "mongodb") method.operation;
        in_module = name;
        path = path;
        owner_method = owner;
        line = method.line;
        end_line = elim method.evidence [ none ↦ method.line | some e ↦ e.end_line ];
        technology = codes "mongodb";
        operation = method.operation;
        action = action;
        reads = (action_facets action).0;
        writes = (action_facets action).1;
        resource = method.collection;
        resource_identity = identity;
        key_expression = or_none method.key_expression;
        key_property = none;
        key_identity =
            literal_key_identity b.is_java_literal identity none (or_none method.key_expression);
        confidence = elim identity [ none ↦ codes "low" | some i ↦ codes "medium" ];
        unresolved_reason = reason_unless identity;
        receiver = some method.receiver;
        transaction_id = none;
        propagation = none;
        isolation = none;
        read_only = none;
        guard = guard;
        guard_scope = scope_of guard;
        value_dependencies = [];
      }

  -- Builders, which have no action, and methods without an owner are no operations.
  unfoldable pub mongo_fact_of :
      MongoMethod → Text → Text → Option MongoAction → Option Text → Option DataOperation
  unfolding mongo_fact data_action
  mongo_fact_of method name path none owner = none
  mongo_fact_of method name path (some action) none = none
  mongo_fact_of method name path (some action) (some owner) =
      some (mongo_fact method name path (data_action action) owner)

  unfoldable pub mongo_data_operation : MongoMethod → Text → Text → Option DataOperation
  unfolding mongo_fact_of or_absent
  mongo_data_operation method name path =
      mongo_fact_of method name path (mongo_action method.operation) (or_absent method.owner_method)

  unfoldable pub jpa_data_operation : JpaMethod → Text → Text → DataOperation
  unfolding jpa_action or_none
  jpa_data_operation method name path =
      let action = jpa_action method.operation in
      let identity = codes "jpa:" ++ name ++ codes ":" ++ method.entity in
      record {
        id = b.identify name path method.owner_method method.line (codes "jpa") method.operation;
        in_module = name;
        path = path;
        owner_method = method.owner_method;
        line = method.line;
        end_line = method.line;
        technology = codes "jpa";
        operation = method.operation;
        action = action;
        reads = (action_facets action).0;
        writes = (action_facets action).1;
        resource = some method.entity;
        resource_identity = some identity;
        key_expression = or_none method.key_expression;
        key_property = none;
        key_identity =
            literal_key_identity b.is_java_literal (some identity) none
              (or_none method.key_expression);
        confidence = codes "medium";
        unresolved_reason = none;
        receiver = some method.receiver;
        transaction_id = none;
        propagation = none;
        isolation = none;
        read_only = none;
        guard = none;
        guard_scope = none;
        value_dependencies = [];
      }

  unfoldable pub mongo_of : DiscoveredModule → MongoMethod → Option DataOperation
  unfolding mongo_data_operation module_identity
  mongo_of m method = mongo_data_operation method (module_identity m) (b.locate m method.path)

  unfoldable pub jpa_of : DiscoveredModule → JpaMethod → DataOperation
  unfolding jpa_data_operation module_identity
  jpa_of m method = jpa_data_operation method (module_identity m) (b.locate m method.path)

  unfoldable pub projected : DiscoveredModule → List DataOperation
  unfolding mongo_of jpa_of
  projected m = filter_map (mongo_of m) m.mongo_methods ++ map (jpa_of m) m.jpa_methods

  unfoldable pub operations_of : DiscoveredModule → List DataOperation
  unfolding projected first_nonempty
  operations_of m = first_nonempty m.data_operations (projected m)

  unfoldable pub data_operations_from_modules : List DiscoveredModule → List DataOperation
  unfolding operations_of
  data_operations_from_modules modules = sort_data_operations (flat_map operations_of modules)
