-- ===== src/ArchitectureRelations/Adding.antt =====
-- `add` of build_architecture_relations (indexing/relations.py), and the order of its result.
use systemlens.Prelude.{
  ℕ, Bool, true, false, ◌&&◌, ◌≡◌, Option, none, some, List, [], ◌∷◌, ◌++◌, if◌then◌else◌, ◌==◌,
  leb, length, option_beq, option_beq_iff, ℕ_eq, arith,
}
use systemlens.Prelude.Dict.{Dict, get, put, keys}
use systemlens.Text.{Text, text_eq, text_beq, text_beq_iff, codes}
use systemlens.Text.Order.{text_leb}
use systemlens.Models.{ArchitectureRelation}
use systemlens.Models.UniqueIds.{free_id}

abbrev pub Relations : Type 0
Relations = Dict Text ArchitectureRelation

unfoldable pub same_ends : ArchitectureRelation → ArchitectureRelation → Bool
same_ends a b =
    text_beq a.id b.id
    && text_beq a.source_kind b.source_kind
    && text_beq a.source_name b.source_name
    && text_beq a.relation b.relation
    && text_beq a.target_kind b.target_kind
    && text_beq a.target_name b.target_name

unfoldable pub same_evidence : ArchitectureRelation → ArchitectureRelation → Bool
same_evidence a b =
    text_beq a.origin b.origin
    && text_beq a.confidence b.confidence
    && option_beq a.in_module b.in_module
    && option_beq a.path b.path
    && option_beq a.start_line b.start_line
    && option_beq a.end_line b.end_line
    && option_beq a.qualified_name b.qualified_name

-- existing == relation
unfoldable pub relation_beq : ArchitectureRelation → ArchitectureRelation → Bool
unfolding same_ends same_evidence
relation_beq a b = same_ends a b && same_evidence a b

both : (p q : Bool) → (p && q) ≡ true → (p ≡ true) × (q ≡ true)
both p q h = ground arith

pub same_of_beq : (a b : ArchitectureRelation) → relation_beq a b ≡ true → a ≡ b
unfolding relation_beq same_ends same_evidence
same_of_beq a b h =
    let (ends, evidence) = both (same_ends a b) (same_evidence a b) h in
    let (r1, e6) = both _ (text_beq a.target_name b.target_name) ends in
    let (r2, e5) = both _ (text_beq a.target_kind b.target_kind) r1 in
    let (r3, e4) = both _ (text_beq a.relation b.relation) r2 in
    let (r4, e3) = both _ (text_beq a.source_name b.source_name) r3 in
    let (e1, e2) = both _ (text_beq a.source_kind b.source_kind) r4 in
    let (s1, f7) = both _ (option_beq a.qualified_name b.qualified_name) evidence in
    let (s2, f6) = both _ (option_beq a.end_line b.end_line) s1 in
    let (s3, f5) = both _ (option_beq a.start_line b.start_line) s2 in
    let (s4, f4) = both _ (option_beq a.path b.path) s3 in
    let (s5, f3) = both _ (option_beq a.in_module b.in_module) s4 in
    let (f1, f2) = both _ (text_beq a.confidence b.confidence) s5 in
    cc (
      (text_beq_iff a.id b.id).0 e1,
      (text_beq_iff a.source_kind b.source_kind).0 e2,
      (text_beq_iff a.source_name b.source_name).0 e3,
      (text_beq_iff a.relation b.relation).0 e4,
      (text_beq_iff a.target_kind b.target_kind).0 e5,
      (text_beq_iff a.target_name b.target_name).0 e6,
      (text_beq_iff a.origin b.origin).0 f1,
      (text_beq_iff a.confidence b.confidence).0 f2,
      (option_beq_iff a.in_module b.in_module).0 f3,
      (option_beq_iff a.path b.path).0 f4,
      (option_beq_iff a.start_line b.start_line).0 f5,
      (option_beq_iff a.end_line b.end_line).0 f6,
      (option_beq_iff a.qualified_name b.qualified_name).0 f7,
    )

-- f"{relation.id}-{digest}"
unfoldable pub hashed_id : (ArchitectureRelation → Text) → ArchitectureRelation → Text
hashed_id digest r = r.id ++ codes "-" ++ digest r

unfoldable pub store_free : Relations → ArchitectureRelation → Option Text → Option Relations
store_free relations r none = none
store_free relations r (some candidate) =
    some (put relations candidate (record r { id = candidate }))

unfoldable pub add_to :
    (ArchitectureRelation → Text)
    → Relations
    → ArchitectureRelation
    → Option ArchitectureRelation
    → Option Relations
unfolding hashed_id store_free
add_to digest relations r none = some (put relations r.id r)
add_to digest relations r (some existing) =
    let fresh =
      free_id (keys relations) (hashed_id digest r) (length (keys relations)) 2
        (hashed_id digest r) in
    if relation_beq existing r then some (put relations r.id r) else store_free relations r fresh

-- `none` would be a search for a free id that does not end.
unfoldable pub add :
    (ArchitectureRelation → Text) → Relations → ArchitectureRelation → Option Relations
unfolding add_to
add digest relations r = add_to digest relations r (get relations r.id)

unfoldable pub add_all :
    (ArchitectureRelation → Text) → Relations → List ArchitectureRelation → Option Relations
unfolding add
add_all digest relations [] = some relations
add_all digest relations (r ∷ rs) = elim (add digest relations r) [
  | none ↦ none
  | some more ↦ add_all digest more rs
]

-- item.path or "", item.start_line or 0
unfoldable pub path_or_empty : Option Text → Text
path_or_empty none = []
path_or_empty (some path) = path

unfoldable pub line_or_zero : Option ℕ → ℕ
line_or_zero none = 0
line_or_zero (some line) = line

-- The order of the tuples by which the result is sorted.
unfoldable pub relation_order : ArchitectureRelation → ArchitectureRelation → Bool
unfolding path_or_empty line_or_zero
relation_order a b =
    if not_same a.source_kind b.source_kind
    then text_leb a.source_kind b.source_kind
    else if not_same a.source_name b.source_name
    then text_leb a.source_name b.source_name
    else if not_same a.relation b.relation
    then text_leb a.relation b.relation
    else if not_same a.target_kind b.target_kind
    then text_leb a.target_kind b.target_kind
    else if not_same a.target_name b.target_name
    then text_leb a.target_name b.target_name
    else if not_same (path_or_empty a.path) (path_or_empty b.path)
    then text_leb (path_or_empty a.path) (path_or_empty b.path)
    else leb (line_or_zero a.start_line) (line_or_zero b.start_line)
  where
    not_same : Text → Text → Bool
    not_same s t = if s == t then false else true
