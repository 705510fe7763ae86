-- ===== src/DataOperations/Examples.antt =====
-- Runs over the inventory of a shop's methods (domain/data_operations.py,
-- domain/data_operation_projection.py).
use mathlib.Core.List.Memᴰ
use systemlens.Prelude.{refl, subst, true, false, some, [], ◌∷◌, ◌++◌, Memᴰ}
use systemlens.Text.{Text, codes, text_beq}
use systemlens.DataOperations.{DataOperation}
use systemlens.DataOperations.Projection.{
  Outside, MongoMethod, JpaMethod, DiscoveredModule, data_operations_from_modules,
}
use systemlens.DataOperations.Laws.{IsCoherent, projection-IsCoherent}
use systemlens.DataOperations.Repository.{Grammar, classify_repository_method}
use systemlens.DataOperations.Repository.Laws.{IsSound, classify-IsSound}

abbrev outside : Outside
outside = record {
  identify = λ name path owner line technology operation. path ++ operation;
  builders = λ snippet. [];
  is_java_literal = λ text. false;
  locate = λ m path. path;
}

abbrev saving : JpaMethod
saving = record {
  operation = codes "save";
  entity = codes "Order";
  receiver = codes "orders";
  path = codes "A.java";
  line = 4;
  owner_method = codes "go";
  key_expression = [];
}

abbrev shop : DiscoveredModule
shop = record {
  name = codes "shop";
  identity = [];
  starts_application = true;
  mongo_methods = [];
  jpa_entities = [];
  jpa_methods = saving ∷ [];
  data_operations = [];
}

abbrev saved : DataOperation
saved =
    systemlens.DataOperations.Projection.jpa_data_operation outside saving (codes "shop")
      (codes "A.java")

saved_there : Memᴰ saved (data_operations_from_modules outside (shop ∷ []))
unfolding data_operations_from_modules systemlens.DataOperations.sort_data_operations
    systemlens.Text.Order.sort systemlens.Text.Order.insert mathlib.Core.List.flat_map
    mathlib.Core.List.filter_map
saved_there = Memᴰ.head refl

none_stored :
    (m : DiscoveredModule)
    → Memᴰ m (shop ∷ [])
    → (o : DataOperation) → Memᴰ o m.data_operations
    → IsCoherent o
none_stored m here o stored = absurd (
    Memᴰ.not-nil (
      subst (λ (x : DiscoveredModule). Memᴰ o x.data_operations) (Memᴰ.eq_of_singleton here)
        stored))

projection-IsCoherent_example : IsCoherent saved
projection-IsCoherent_example =
    projection-IsCoherent outside (shop ∷ []) none_stored saved saved_there

abbrev grammar : Grammar
grammar = record {
  derived = λ name. some (codes "find", some (codes "Email"));
  without_order = λ predicate. predicate;
  parts = λ predicate. predicate ∷ [];
}

classify-IsSound_example : IsSound (classify_repository_method grammar (codes "findByEmail"))
classify-IsSound_example = classify-IsSound grammar (codes "findByEmail")
