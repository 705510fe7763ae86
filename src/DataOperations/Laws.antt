-- ===== src/DataOperations/Laws.antt =====
-- Facts about data operations agree with themselves (domain/data_operations.py,
-- domain/data_operation_projection.py).
use mathlib.Core.List.Memᴰ
use mathlib.Core.Logic.{⊎_elim}
use systemlens.Prelude.{
  ◌≡◌, ◌≢◌, refl, sym, ap, ◌∙◌, subst, ◌↔◌, inl, inr, Bool, Option, none, some, List, [], ◌∷◌,
  contains, filter_map, map, Memᴰ, Memᴰ-append, Bool-cases, Option-cases,
}
use systemlens.Prelude.Gather.{flat_map_iff}
use systemlens.Text.{Text, text_eq, codes, starts_with}
use systemlens.Text.Order.{Memᴰ-sort}
use systemlens.MongoOperations.{MongoAction, mongo_action}
use systemlens.DataOperations.{
  DataAction, DataOperation, action_facets, crud_action, crud_reads, crud_saves, crud_deletes,
  literal_key_identity, key_identity_base, operation_leb, sort_data_operations,
}
use systemlens.DataOperations.Projection.{
  Outside, DiscoveredModule, MongoMethod, JpaMethod, module_identity, mongo_fact,
  mongo_data_operation, jpa_data_operation, jpa_action, data_action, operations_of, or_absent,
  scope_of, action_or, mongo_fact_of, mongo_of, jpa_of, projected, first_nonempty, reason_unless,
  data_operations_from_modules,
}

-- An operation reads and writes as its action does, has a guard where it has the guard's scope,
-- has a key's identity only in a known resource, and a reason exactly where the resource is unknown.
pub record IsCoherent (o : DataOperation) : Type 0 where
  pub facets : (o.reads, o.writes) ≡ action_facets o.action
  pub known : o.action ≢ DataAction.unknown
  pub scoped : (o.guard ≡ none) ↔ (o.guard_scope ≡ none)
  pub keyed : o.resource_identity ≡ none → o.key_identity ≡ none
  pub reasoned : (o.resource_identity ≡ none) ↔ (o.unresolved_reason ≢ none)

data_action_known : (a : MongoAction) → data_action a ≢ DataAction.unknown
unfolding data_action
data_action_known MongoAction.read q = cc
data_action_known MongoAction.insert q = cc
data_action_known MongoAction.update q = cc
data_action_known MongoAction.delete q = cc
data_action_known MongoAction.create_or_update q = cc
data_action_known MongoAction.read_update q = cc

no_key :
    (is_java_literal : Text → Bool) (property expression : Option Text)
    → literal_key_identity is_java_literal none property expression ≡ none
unfolding literal_key_identity key_identity_base
no_key is_java_literal property expression = refl

scope_iff : (guard : Option Text) → (guard ≡ none) ↔ (scope_of guard ≡ none)
unfolding scope_of
scope_iff none = (λ q. refl, λ q. refl)
scope_iff (some g) = (λ q. cc, λ q. cc)

reason_iff : (identity : Option Text) → (identity ≡ none) ↔ (reason_unless identity ≢ none)
unfolding reason_unless
reason_iff none = (λ q r. cc, λ q. refl)
reason_iff (some i) = (λ q. cc, λ q. absurd (q refl))

key_in_resource :
    (is_java_literal : Text → Bool) (identity property expression : Option Text)
    → identity ≡ none
    → literal_key_identity is_java_literal identity property expression ≡ none
key_in_resource is_java_literal identity property expression q =
    ap (λ i. literal_key_identity is_java_literal i property expression) q
    ∙ no_key is_java_literal property expression

crud_known :
    (operation : Text) (a : DataAction) → crud_action operation ≡ some a → a ≢ DataAction.unknown
unfolding crud_action
crud_known operation a e q = elim (Bool-cases (contains crud_reads operation)) [
  | inl t ↦ absurd (cc (rw t at e))
  | inr t ↦ elim (Bool-cases (contains crud_saves operation)) [
    | inl u ↦ absurd (cc (rw (t, u) at e))
    | inr u ↦ elim (Bool-cases (contains crud_deletes operation)) [
      | inl v ↦ absurd (cc (rw (t, u, v) at e))
      | inr v ↦ absurd (cc (rw (t, u, v) at e))
    ]
  ]
]

action_or_known :
    (default : DataAction) (crud : Option DataAction)
    → default ≢ DataAction.unknown
    → ((a : DataAction) → crud ≡ some a → a ≢ DataAction.unknown)
    → action_or default crud ≢ DataAction.unknown
unfolding action_or
action_or_known default none h k = h
action_or_known default (some a) h k = k a refl

jpa_action_known : (operation : Text) → jpa_action operation ≢ DataAction.unknown
unfolding jpa_action
jpa_action_known operation =
    action_or_known _ (crud_action operation)
      (elim (Bool-cases (starts_with (codes "delete") operation)) [
        | inl t ↦ rw t (λ q. cc)
        | inr t ↦ rw t (λ q. cc)
      ])
      (crud_known operation)

some_injective : {o p : DataOperation} → some o ≡ some p → o ≡ p
some_injective e = cc

of_filter_map :
    {A : Type 0} (f : A → Option DataOperation) (xs : List A) (o : DataOperation)
    → Memᴰ o (filter_map f xs)
    → (x : A) × (f x ≡ some o)
unfolding mathlib.Core.List.filter_map
of_filter_map f [] o m = absurd (Memᴰ.not-nil m)
of_filter_map f (x ∷ xs) o m = elim (Option-cases (f x)) [
  | inl e ↦ of_filter_map f xs o (rw (e, filter_map) at m)
  | inr (p, e) ↦
      ⊎_elim (λ q. (x, e ∙ ap (λ (r : DataOperation). some r) (sym q))) (of_filter_map f xs o)
        (Memᴰ.cases_cons {a = o} {b = p} {l = filter_map f xs} (rw (e, filter_map) at m))
]

module _ (b : Outside) where
  mongo_fact-IsCoherent :
      (method : MongoMethod) (name path owner : Text) (a : MongoAction)
      → IsCoherent (mongo_fact b method name path (data_action a) owner)
  unfolding mongo_fact
  mongo_fact-IsCoherent method name path owner a = record {
    facets = refl;
    known = data_action_known a;
    scoped = scope_iff _;
    keyed = key_in_resource b.is_java_literal _ none _;
    reasoned = reason_iff _;
  }

  jpa-IsCoherent :
      (method : JpaMethod) (name path : Text) → IsCoherent (jpa_data_operation b method name path)
  unfolding jpa_data_operation
  jpa-IsCoherent method name path = record {
    facets = refl;
    known = jpa_action_known method.operation;
    scoped = (λ q. refl, λ q. refl);
    keyed = λ q. cc;
    reasoned = (λ q. cc, λ q. absurd (q refl));
  }

  mongo_fact_of-IsCoherent :
      (method : MongoMethod) (name path : Text) (a : Option MongoAction) (owner : Option Text)
      (o : DataOperation)
      → mongo_fact_of b method name path a owner ≡ some o
      → IsCoherent o
  unfolding mongo_fact_of
  mongo_fact_of-IsCoherent method name path none owner o e = cc
  mongo_fact_of-IsCoherent method name path (some a) none o e = cc
  mongo_fact_of-IsCoherent method name path (some a) (some w) o e =
      subst IsCoherent (some_injective e) (mongo_fact-IsCoherent method name path w a)

  mongo_of-IsCoherent :
      (m : DiscoveredModule) (method : MongoMethod) (o : DataOperation)
      → mongo_of b m method ≡ some o
      → IsCoherent o
  unfolding mongo_of mongo_data_operation
  mongo_of-IsCoherent m method o q =
      mongo_fact_of-IsCoherent method (module_identity m) (b.locate m method.path)
        (mongo_action method.operation) (or_absent method.owner_method) o q

  jpa_of-IsCoherent : (m : DiscoveredModule) (method : JpaMethod) → IsCoherent (jpa_of b m method)
  unfolding jpa_of
  jpa_of-IsCoherent m method = jpa-IsCoherent method (module_identity m) (b.locate m method.path)

  projected-IsCoherent :
      (m : DiscoveredModule) (o : DataOperation) → Memᴰ o (projected b m) → IsCoherent o
  unfolding projected
  projected-IsCoherent m o n =
      ⊎_elim
        (λ k.
          let (method, q) = of_filter_map (mongo_of b m) m.mongo_methods o k in
          mongo_of-IsCoherent m method o q)
        (λ k.
          let (method, at, q) = Memᴰ.of_map (jpa_of b m) m.jpa_methods k in
          subst IsCoherent q (jpa_of-IsCoherent m method))
        ((Memᴰ-append o (filter_map (mongo_of b m) m.mongo_methods)
            (map (jpa_of b m) m.jpa_methods)).0
          n)

  first_nonempty-IsCoherent :
      (xs ys : List DataOperation)
      → ((o : DataOperation) → Memᴰ o xs → IsCoherent o)
      → ((o : DataOperation) → Memᴰ o ys → IsCoherent o)
      → (o : DataOperation) → Memᴰ o (first_nonempty xs ys)
      → IsCoherent o
  unfolding first_nonempty
  first_nonempty-IsCoherent [] ys h k = k
  first_nonempty-IsCoherent (x ∷ xs) ys h k = h

-- Every operation that the projection of a module inventory gives agrees with itself, if the
-- operations do that the modules already hold: it reads and writes as its action says, the action is
-- a known one, a guard stands with its scope, a key is identified in a known resource only, and
-- there is a reason exactly where the resource is unknown.
pub projection-IsCoherent :
    (b : Outside) (modules : List DiscoveredModule)
    → ((m : DiscoveredModule)
        → Memᴰ m modules
        → (o : DataOperation) → Memᴰ o m.data_operations
        → IsCoherent o)
    → (o : DataOperation) → Memᴰ o (data_operations_from_modules b modules)
    → IsCoherent o
unfolding data_operations_from_modules sort_data_operations operations_of
projection-IsCoherent b modules h o n =
    let (m, (at, k)) =
      (flat_map_iff (operations_of b) modules o).0 ((Memᴰ-sort operation_leb o _).0 n) in
    first_nonempty-IsCoherent b m.data_operations (projected b m) (h m at)
      (projected-IsCoherent b m) o k
