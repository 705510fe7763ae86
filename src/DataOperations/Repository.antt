-- ===== src/DataOperations/Repository.antt =====
-- classify_repository_method of domain/data_operations.py. Its regular expressions are parameters:
-- `derived` gives the groups `prefix` and `predicate` of _DERIVED_PREFIX, `without_order` is
-- `_ORDER_BY.sub("", predicate)`, and `parts` is `_PREDICATE_SPLIT.split(predicate)`.
pub mod Laws
use systemlens.Prelude.{
  ◌-◌, Bool, true, false, ◌&&◌, ◌||◌, Option, none, some, List, [], ◌∷◌, ◌++◌, if◌then◌else◌, ◌==◌,
  any, contains, length, ltb, take,
}
use systemlens.Text.{Text, text_eq, codes, lower, ends_with}
use systemlens.DataOperations.{DataAction, crud_action}

pub record RepositoryMethodClassification : Type 0 where
  pub action : DataAction
  pub keyed : Bool
  pub key_property : Option Text
  pub reason : Option Text

abbrev pub id_crud : List Text
id_crud =
    codes "findById"
    ∷ codes "existsById"
    ∷ codes "deleteById"
    ∷ codes "getById"
    ∷ codes "getOne"
    ∷ codes "getReferenceById"
    ∷ []

abbrev pub equality_suffixes : List Text
equality_suffixes = codes "Is" ∷ codes "Equals" ∷ []

abbrev pub non_equality_suffixes : List Text
non_equality_suffixes =
    codes "IgnoreCase"
    ∷ codes "Between"
    ∷ codes "LessThan"
    ∷ codes "LessThanEqual"
    ∷ codes "GreaterThan"
    ∷ codes "GreaterThanEqual"
    ∷ codes "After"
    ∷ codes "Before"
    ∷ codes "IsNull"
    ∷ codes "Null"
    ∷ codes "IsNotNull"
    ∷ codes "NotNull"
    ∷ codes "Like"
    ∷ codes "NotLike"
    ∷ codes "StartingWith"
    ∷ codes "StartsWith"
    ∷ codes "EndingWith"
    ∷ codes "EndsWith"
    ∷ codes "Containing"
    ∷ codes "Contains"
    ∷ codes "In"
    ∷ codes "NotIn"
    ∷ codes "True"
    ∷ codes "False"
    ∷ codes "Not"
    ∷ codes "Exists"
    ∷ codes "Near"
    ∷ codes "Within"
    ∷ codes "Regex"
    ∷ codes "Matches"
    ∷ codes "IsEmpty"
    ∷ codes "Empty"
    ∷ codes "IsNotEmpty"
    ∷ codes "NotEmpty"
    ∷ []

pub record Grammar : Type 0 where
  pub derived : Text → Option (Text × Option Text)
  pub without_order : Text → Text
  pub parts : Text → List Text

unfoldable pub lower_first : Text → Text
lower_first [] = []
lower_first (c ∷ name) = lower (c ∷ []) ++ name

unfoldable pub has_suffix : Text → Text → Bool
has_suffix part suffix = ends_with suffix part && ltb (length suffix) (length part)

-- The loop over the suffixes, which ends with the first one that is cut off.
unfoldable pub without_suffix : List Text → Text → Text
unfolding has_suffix
without_suffix [] part = part
without_suffix (suffix ∷ suffixes) part =
    let rest = without_suffix suffixes part in
    if has_suffix part suffix then take (length part - length suffix) part else rest

unfoldable pub unkeyed : DataAction → Option Text → RepositoryMethodClassification
unkeyed action reason = record {
  action = action;
  keyed = false;
  key_property = none;
  reason = reason;
}

unfoldable pub classify_part : DataAction → Text → RepositoryMethodClassification
unfolding without_suffix unkeyed lower_first has_suffix
classify_part action given =
    let part = without_suffix equality_suffixes given in
    if any (has_suffix part) non_equality_suffixes then unkeyed action none else record {
      action = action;
      keyed = true;
      key_property = if lower_first part == codes "id" then none else some (lower_first part);
      reason = none;
    }

unfoldable pub classify_predicate : DataAction → List Text → RepositoryMethodClassification
unfolding classify_part
classify_predicate action [] = unkeyed action none
classify_predicate action ([] ∷ []) = unkeyed action none
classify_predicate action ((c ∷ t) ∷ []) = classify_part action (c ∷ t)
classify_predicate action (p ∷ q ∷ ps) = unkeyed action none

unfoldable pub derived_action : Text → DataAction
derived_action prefix =
    if prefix == codes "delete" || prefix == codes "remove"
    then DataAction.delete
    else DataAction.read

abbrev pub outside_grammar : Text
outside_grammar = codes "method name outside the Spring Data derived-query grammar"

unfoldable pub classify_derived :
    Grammar → Option (Text × Option Text) → RepositoryMethodClassification
unfolding classify_predicate derived_action unkeyed
classify_derived g none = unkeyed DataAction.unknown (some outside_grammar)
classify_derived g (some (prefix, none)) = unkeyed (derived_action prefix) none
classify_derived g (some (prefix, some predicate)) =
    classify_predicate (derived_action prefix) (g.parts (g.without_order predicate))

unfoldable pub classify_crud : Grammar → Text → Option DataAction → RepositoryMethodClassification
unfolding classify_derived
classify_crud g name (some action) = record {
  action = action;
  keyed = contains id_crud name;
  key_property = none;
  reason = none;
}
classify_crud g name none = classify_derived g (g.derived name)

unfoldable pub classify_repository_method : Grammar → Text → RepositoryMethodClassification
unfolding classify_crud
classify_repository_method g name = classify_crud g name (crud_action name)
