-- ===== src/Models/UniqueIds.antt =====
-- The loop of ensure_unique_endpoint_ids (domain/models.py) and ensure_unique_code_flow_ids
-- (domain/code_flows.py): they differ in the item and in the text that is hashed. `digest` is the
-- first eight characters of the SHA-256 of that text.
pub mod Laws
use systemlens.Prelude.{
  ℕ, zero, suc, ◌+◌, Bool, true, false, Option, none, some, List, [], ◌∷◌, ◌++◌, if◌then◌else◌,
  contains, length, ◌≡◌,
}
use systemlens.Text.{Text, text_eq, codes}
use systemlens.Text.Decimal.{decimal}

-- A frozen dataclass with an id, and `replace(item, id=...)`.
pub record Identified (A : Type 0) : Type 0 where
  pub id : A → Text
  pub with_id : Text → A → A
  pub id-with_id : (t : Text) (a : A) → id (with_id t a) ≡ t
  pub digest : A → Text

-- f"{base}-{collision}"
unfoldable pub numbered : Text → ℕ → Text
numbered base n = base ++ (codes "-" ++ decimal n)

-- while candidate in used_ids: candidate = f"{base}-{collision}"; collision += 1
unfoldable pub free_id : List Text → Text → ℕ → ℕ → Text → Option Text
unfolding numbered
free_id used base zero collision candidate =
    if contains used candidate then none else some candidate
free_id used base (suc fuel) collision candidate = elim (contains used candidate) [
  | true ↦ free_id used base fuel (suc collision) (numbered base collision)
  | false ↦ some candidate
]

module _ {A : Type 0} (i : Identified A) where
  open i use {id, with_id, digest}

  -- f"{item.id}-{digest}"
  unfoldable pub hashed : A → Text
  hashed a = id a ++ codes "-" ++ digest a

  -- The id that the loop gives to an item; as many candidates as used ids are enough.
  unfoldable pub chosen_id : List Text → A → Option Text
  unfolding free_id
  chosen_id used a =
      if contains used (id a)
      then free_id used (hashed a) (length used) 2 (hashed a)
      else some (id a)

  renamed : List Text → A → Text → A
  renamed used a t = if contains used (id a) then with_id t a else a

  -- `none` would be a search that ends without a free candidate.
  unfoldable pub ensure_unique_from : List Text → List A → Option (List A)
  unfolding renamed
  ensure_unique_from used [] = some []
  ensure_unique_from used (a ∷ items) = elim (chosen_id used a) [
    | none ↦ none
    | some t ↦ elim (ensure_unique_from (t ∷ used) items) [
      | none ↦ none
      | some rest ↦ some (renamed used a t ∷ rest)
    ]
  ]

  unfoldable pub ensure_unique_ids : List A → Option (List A)
  ensure_unique_ids = ensure_unique_from []
