-- ===== src/Graph/Paths.antt =====
-- The path rules of domain/graph.py: _split_path to _segment_matches, and paths_match.
-- `compile` is Python's `re`: it compiles the pattern of a `{name:regex}` segment to its
-- `fullmatch` test, and is `none` where re.compile raises re.error.
pub mod Laws
use mathlib.Core.List.{reverse}
use systemlens.Prelude.{
  ℕ, Bool, true, false, ◌&&◌, ◌||◌, not, Option, none, some, List, [], ◌∷◌, if◌then◌else◌, ◌==◌,
  ltb, leb, nat_beq, filter, length, Memᴰ, ◌≡◌, ◌≢◌, refl,
}
use systemlens.Text.{Text, text_eq, codes, partition, split, starts_with, ends_with, text_beq}

abbrev pub Compile : Type 0
Compile = Text → Option (Text → Bool)

is_nonempty : Text → Bool
is_nonempty [] = false
is_nonempty (c ∷ s) = true

unfoldable pub split_path : Text → List Text
unfolding is_nonempty
split_path path = filter is_nonempty (split b'/' (partition b'?' path).0)

unfoldable pub is_template_segment : Text → Bool
is_template_segment segment = starts_with (codes "{") segment && ends_with (codes "}") segment

-- segment[1:-1]
drop_last : Text → Text
drop_last [] = []
drop_last (c ∷ []) = []
drop_last (c ∷ d ∷ s) = c ∷ drop_last (d ∷ s)

inner : Text → Text
unfolding drop_last
inner [] = []
inner (c ∷ s) = drop_last s

-- the pattern of a `{name:pattern}` segment, empty where there is none
constraint_pattern : Text → Text
unfolding inner
constraint_pattern segment = (partition b':' (inner segment)).1

-- The prefix of a pattern that ends in `**`.
unfoldable pub wildcard_prefix : List Text → Option (List Text)
wildcard_prefix [] = none
wildcard_prefix (x ∷ []) = if x == codes "**" then some [] else none
wildcard_prefix (x ∷ y ∷ xs) = elim (wildcard_prefix (y ∷ xs)) [
  | none ↦ none
  | some prefix ↦ some (x ∷ prefix)
]

module _ (compile : Compile) where
  unfoldable pub template_constraint : Text → Option (Text → Bool)
  unfolding constraint_pattern
  template_constraint segment = elim (constraint_pattern segment) [
    | [] ↦ none
    | c ∷ s ↦ compile (c ∷ s)
  ]

  unfoldable pub literal_fits_template : Text → Text → Bool
  unfolding template_constraint
  literal_fits_template literal template = elim (template_constraint template) [
    | none ↦ true
    | some fullmatch ↦ fullmatch literal
  ]

  unfoldable pub segment_matches : Text → Text → Bool
  segment_matches call_segment serve_segment =
      let call_is_template = is_template_segment call_segment in
      let serve_is_template = is_template_segment serve_segment in
      if call_is_template && serve_is_template
      then true
      else if serve_is_template
      then literal_fits_template call_segment serve_segment
      else if call_is_template
      then literal_fits_template serve_segment call_segment
      else call_segment == serve_segment

  -- all(_segment_matches(a, b) for a, b in zip(xs, ys))
  unfoldable pub all_match : List Text → List Text → Bool
  all_match [] ys = true
  all_match (x ∷ xs) [] = true
  all_match (x ∷ xs) (y ∷ ys) = segment_matches x y && all_match xs ys

  unfoldable pub matches_wildcard_path : List Text → List Text → Bool
  unfolding wildcard_prefix
  matches_wildcard_path pattern concrete = elim (wildcard_prefix pattern) [
    | none ↦ false
    | some prefix ↦
        if leb (length concrete) (length prefix) then false else all_match prefix concrete
  ]

  unfoldable pub segments_match : List Text → List Text → Bool
  unfolding matches_wildcard_path
  segments_match [] serve_segments = false
  segments_match (c ∷ cs) serve_segments =
      if matches_wildcard_path (c ∷ cs) serve_segments
      then true
      else if matches_wildcard_path serve_segments (c ∷ cs)
      then true
      else if nat_beq (length (c ∷ cs)) (length serve_segments)
      then all_match (c ∷ cs) serve_segments
      else false

  -- `partition(" ")` of a topic: its method and its path
  unfoldable pub paths_match : Text → Text → Bool
  unfolding segments_match
  paths_match call_topic serve_topic =
      let (call_method, call_path) = partition b' ' call_topic in
      let (serve_method, serve_path) = partition b' ' serve_topic in
      if call_path == codes "<dynamic>"
        || (not (call_method == serve_method)
            && not (call_method == codes "ANY")
            && not (serve_method == codes "ANY"))
      then false
      else segments_match (split_path call_path) (split_path serve_path)

unfoldable pub http_methods_match : Text → Text → Bool
http_methods_match call_topic serve_topic =
    let call_method = (partition b' ' call_topic).0 in
    let serve_method = (partition b' ' serve_topic).0 in
    call_method == serve_method || call_method == codes "ANY" || serve_method == codes "ANY"
