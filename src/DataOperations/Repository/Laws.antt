-- ===== src/DataOperations/Repository/Laws.antt =====
-- How the classification of a repository method agrees with itself (domain/data_operations.py).
use systemlens.Prelude.{
  ◌≡◌, ◌≢◌, refl, sym, ◌∙◌, ◌↔◌, ◌⊎◌, inl, inr, Bool, true, false, not, Option, none, some, List,
  [], ◌∷◌, all, any, all_at, contains, contains_iff, Bool-cases, ◌==◌, ◌||◌, arith,
}
use systemlens.Text.{Text, text_eq, text_beq, codes}
use systemlens.DataOperations.{DataAction, crud_action, crud_reads, crud_saves, crud_deletes}
use systemlens.DataOperations.Repository.{
  RepositoryMethodClassification, Grammar, id_crud, non_equality_suffixes, equality_suffixes,
  has_suffix, without_suffix, unkeyed, classify_part, classify_predicate, derived_action,
  classify_derived, classify_crud, classify_repository_method,
}

-- There is a reason exactly for an unknown action, only a read or a delete is keyed, and only a
-- keyed call has a key's property.
pub record IsSound (c : RepositoryMethodClassification) : Type 0 where
  pub reasoned : (c.action ≡ DataAction.unknown) ↔ (c.reason ≢ none)
  pub keys : c.keyed ≡ true → (c.action ≡ DataAction.read) ⊎ (c.action ≡ DataAction.delete)
  pub property : c.keyed ≡ false → c.key_property ≡ none

known : (a : DataAction) → (a ≡ DataAction.read) ⊎ (a ≡ DataAction.delete) → a ≢ DataAction.unknown
known a (inl e) q = cc
known a (inr e) q = cc

unkeyed-IsSound :
    (a : DataAction) → (a ≡ DataAction.read) ⊎ (a ≡ DataAction.delete) → IsSound (unkeyed a none)
unfolding unkeyed
unkeyed-IsSound a h = record {
  reasoned = (λ e. absurd (known a h e), λ e. absurd (e refl));
  keys = λ e. cc;
  property = λ e. refl;
}

classify_part-IsSound :
    (a : DataAction) (part : Text)
    → (a ≡ DataAction.read) ⊎ (a ≡ DataAction.delete)
    → IsSound (classify_part a part)
unfolding classify_part
classify_part-IsSound a part h =
    elim (Bool-cases
      (any (has_suffix (without_suffix equality_suffixes part)) non_equality_suffixes)) [
        | inl t ↦ rw t (unkeyed-IsSound a h)
        | inr t ↦ rw t (record {
          reasoned = (λ e. absurd (known a h e), λ e. absurd (e refl));
          keys = λ e. h;
          property = λ e. cc;
        })
      ]

classify_predicate-IsSound :
    (a : DataAction) (parts : List Text)
    → (a ≡ DataAction.read) ⊎ (a ≡ DataAction.delete)
    → IsSound (classify_predicate a parts)
unfolding classify_predicate
classify_predicate-IsSound a [] h = unkeyed-IsSound a h
classify_predicate-IsSound a ([] ∷ []) h = unkeyed-IsSound a h
classify_predicate-IsSound a ((c ∷ t) ∷ []) h = classify_part-IsSound a (c ∷ t) h
classify_predicate-IsSound a (p ∷ q ∷ ps) h = unkeyed-IsSound a h

derived_cases :
    (prefix : Text)
    → (derived_action prefix ≡ DataAction.read) ⊎ (derived_action prefix ≡ DataAction.delete)
unfolding derived_action
derived_cases prefix = elim (Bool-cases (prefix == codes "delete" || prefix == codes "remove")) [
  | inl t ↦ inr (rw t refl)
  | inr t ↦ inl (rw t refl)
]

classify_derived-IsSound :
    (g : Grammar) (match : Option (Text × Option Text)) → IsSound (classify_derived g match)
unfolding classify_derived
classify_derived-IsSound g none = record {
  reasoned = (λ e q. cc, λ e. refl);
  keys = λ e. cc;
  property = λ e. refl;
}
classify_derived-IsSound g (some (prefix, none)) =
    unkeyed-IsSound (derived_action prefix) (derived_cases prefix)
classify_derived-IsSound g (some (prefix, some predicate)) =
    classify_predicate-IsSound (derived_action prefix) (g.parts (g.without_order predicate))
      (derived_cases prefix)

saves_never : all (λ n. not (contains id_crud n)) crud_saves ≡ true
unfolding contains all text_beq
saves_never = refl

refuted : (b : Bool) → not b ≡ true → b ≡ false
refuted b h = ground arith

-- No saving method names an id.
saves_unkeyed : (name : Text) → contains crud_saves name ≡ true → contains id_crud name ≡ false
saves_unkeyed name h = refuted (contains id_crud name) (
    all_at (λ n. not (contains id_crud n)) name crud_saves saves_never
      ((contains_iff crud_saves name).0 h))

crud_cases :
    (name : Text) (a : DataAction)
    → crud_action name ≡ some a
    → ((a ≡ DataAction.read) ⊎ (a ≡ DataAction.delete))
      ⊎ ((a ≡ DataAction.create_or_update) × (contains crud_saves name ≡ true))
unfolding crud_action
crud_cases name a e = elim (Bool-cases (contains crud_reads name)) [
  | inl t ↦ inl (inl (some_injective (sym e ∙ rw t refl)))
  | inr t ↦ elim (Bool-cases (contains crud_saves name)) [
    | inl u ↦ inr (some_injective (sym e ∙ rw (t, u) refl), u)
    | inr u ↦ elim (Bool-cases (contains crud_deletes name)) [
      | inl v ↦ inl (inr (some_injective (sym e ∙ rw (t, u, v) refl)))
      | inr v ↦ absurd (cc (rw (t, u, v) at e))
    ]
  ]
]
  where
    some_injective : {x y : DataAction} → some x ≡ some y → x ≡ y
    some_injective q = cc

classify_crud-IsSound :
    (g : Grammar) (name : Text) (crud : Option DataAction)
    → crud_action name ≡ crud
    → IsSound (classify_crud g name crud)
unfolding classify_crud
classify_crud-IsSound g name none e = classify_derived-IsSound g (g.derived name)
classify_crud-IsSound g name (some a) e = elim (crud_cases name a e) [
  | inl h ↦ record {
    reasoned = (λ q. absurd (known a h q), λ q. absurd (q refl));
    keys = λ q. h;
    property = λ q. refl;
  }
  | inr (w, s) ↦ record {
    reasoned = (λ q. cc, λ q. absurd (q refl));
    keys = λ q. cc (saves_unkeyed name s);
    property = λ q. refl;
  }
]

-- Whatever the grammar finds in a name, the classification gives a reason exactly if the action is
-- unknown, keys only a read or a delete, and names a key's property only if it keys the call.
pub classify-IsSound : (g : Grammar) (name : Text) → IsSound (classify_repository_method g name)
unfolding classify_repository_method
classify-IsSound g name = classify_crud-IsSound g name (crud_action name) refl
