-- ===== src/DataOperations.antt =====
-- domain/data_operations.py: facts about data operations. `is_java_literal` is
-- `JAVA_LITERAL.fullmatch`, a search of Python's `re`.
mod Examples
pub mod Projection
pub mod Repository
pub mod Laws
use systemlens.Prelude.{
  ℕ, Bool, true, false, ◌||◌, Option, none, some, List, [], ◌∷◌, ◌++◌, if◌then◌else◌, ◌==◌,
  contains, ltb, nat_beq,
}
use systemlens.Text.{Text, text_eq, codes, strip}
use systemlens.Text.Order.{sort, text_leb}

pub data DataAction : Type 0 where
  read insert update delete create_or_update read_update unknown : DataAction

-- action in _READ_ACTIONS, action in _WRITE_ACTIONS
unfoldable pub action_facets : DataAction → Bool × Bool
action_facets DataAction.read = (true, false)
action_facets DataAction.read_update = (true, true)
action_facets DataAction.unknown = (false, false)
action_facets _ = (false, true)

pub record DataOperation : Type 0 where
  pub id : Text
  pub in_module : Text
  pub path : Text
  pub owner_method : Text
  pub line : ℕ
  pub end_line : ℕ
  pub technology : Text
  pub operation : Text
  pub action : DataAction
  pub reads : Bool
  pub writes : Bool
  pub resource : Option Text
  pub resource_identity : Option Text
  pub key_expression : Option Text
  pub key_property : Option Text
  pub key_identity : Option Text
  pub confidence : Text
  pub unresolved_reason : Option Text
  pub receiver : Option Text
  pub transaction_id : Option Text
  pub propagation : Option Text
  pub isolation : Option Text
  pub read_only : Option Bool
  pub guard : Option Text
  pub guard_scope : Option Text
  pub value_dependencies : List Text

pub data Coverage : Type 0 where
  supported partial unsupported : Coverage

unfoldable pub is_unknown : DataAction → Bool
is_unknown DataAction.unknown = true
is_unknown _ = false

unfoldable pub coverage : DataOperation → Coverage
unfolding is_unknown
coverage o =
    if is_unknown o.action
    then elim o.resource_identity [ none ↦ Coverage.unsupported | some r ↦ Coverage.partial ]
    else elim o.resource_identity [ none ↦ Coverage.partial | some r ↦ Coverage.supported ]

abbrev pub crud_reads : List Text
crud_reads =
    codes "findById"
    ∷ codes "findAll"
    ∷ codes "findAllById"
    ∷ codes "existsById"
    ∷ codes "count"
    ∷ codes "getById"
    ∷ codes "getOne"
    ∷ codes "getReferenceById"
    ∷ []

abbrev pub crud_saves : List Text
crud_saves = codes "save" ∷ codes "saveAll" ∷ codes "saveAndFlush" ∷ codes "saveAllAndFlush" ∷ []

abbrev pub crud_deletes : List Text
crud_deletes =
    codes "delete"
    ∷ codes "deleteById"
    ∷ codes "deleteAll"
    ∷ codes "deleteAllById"
    ∷ codes "deleteAllInBatch"
    ∷ codes "deleteAllByIdInBatch"
    ∷ codes "deleteInBatch"
    ∷ []

unfoldable pub crud_action : Text → Option DataAction
crud_action operation =
    if contains crud_reads operation
    then some DataAction.read
    else if contains crud_saves operation
    then some DataAction.create_or_update
    else if contains crud_deletes operation
    then some DataAction.delete
    else none

unfoldable pub key_identity_base : Option Text → Option Text → Option Text
key_identity_base none key_property = none
key_identity_base (some resource_identity) none = some resource_identity
key_identity_base (some resource_identity) (some key_property) =
    some (resource_identity ++ codes "#" ++ key_property)

unfoldable pub literal_key_identity :
    (Text → Bool) → Option Text → Option Text → Option Text → Option Text
unfolding key_identity_base
literal_key_identity is_java_literal resource_identity key_property expression =
    elim (key_identity_base resource_identity key_property) [
      | none ↦ none
      | some base ↦ elim expression [
        | none ↦ none
        | some e ↦
            if is_java_literal (strip e) then some (base ++ codes ":literal:" ++ strip e) else none
      ]
    ]

-- key=lambda item: (item.module, item.path, item.line, item.technology, item.operation, item.id)
unfoldable pub operation_leb : DataOperation → DataOperation → Bool
operation_leb a b =
    if a.in_module == b.in_module
    then if a.path == b.path
      then if nat_beq a.line b.line
        then if a.technology == b.technology
          then if a.operation == b.operation
            then text_leb a.id b.id
            else text_leb a.operation b.operation
          else text_leb a.technology b.technology
        else ltb a.line b.line
      else text_leb a.path b.path
    else text_leb a.in_module b.in_module

unfoldable pub sort_data_operations : List DataOperation → List DataOperation
unfolding operation_leb
sort_data_operations operations = sort operation_leb operations
