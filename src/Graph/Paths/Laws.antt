-- ===== src/Graph/Paths/Laws.antt =====
-- Which routes the path rules of domain/graph.py relate.
use systemlens.Prelude.{◌≡◌, ◌≢◌, refl, sym, ap₂, true, false, ◌&&◌, List, [], ◌∷◌, arith}
use systemlens.Text.{Text, text_eq, text_beq, text_beq_iff, codes, partition}
use systemlens.Graph.Paths.{
  Compile, split_path, is_template_segment, segment_matches, all_match, matches_wildcard_path,
  segments_match, paths_match, http_methods_match,
}

pub text_beq_comm : (a b : Text) → text_beq a b ≡ text_beq b a
text_beq_comm a b = ground (arith, text_beq_iff a b, text_beq_iff b a)

-- A segment of a served route that binds no value.
abbrev pub IsLiteral : Text → Type 0
IsLiteral s = is_template_segment s ≡ false

module _ (compile : Compile) where
  pub segment_matches_comm :
      (a b : Text) → segment_matches compile a b ≡ segment_matches compile b a
  unfolding segment_matches
  segment_matches_comm a b = ground (arith, text_beq_comm a b)

  segment_matches_refl : (a : Text) → segment_matches compile a a ≡ true
  unfolding segment_matches
  segment_matches_refl a = ground (arith, text_beq_iff a a)

  all_match_comm : (xs ys : List Text) → all_match compile xs ys ≡ all_match compile ys xs
  unfolding all_match
  all_match_comm [] [] = refl
  all_match_comm [] (y ∷ ys) = refl
  all_match_comm (x ∷ xs) [] = refl
  all_match_comm (x ∷ xs) (y ∷ ys) = ap₂ ◌&&◌ (segment_matches_comm x y) (all_match_comm xs ys)

  all_match_refl : (xs : List Text) → all_match compile xs xs ≡ true
  unfolding all_match
  all_match_refl [] = refl
  all_match_refl (x ∷ xs) = ground (arith, segment_matches_refl x, all_match_refl xs)

  wildcard_nil : (p : List Text) → matches_wildcard_path compile p [] ≡ false
  unfolding matches_wildcard_path
  wildcard_nil p = ground arith

  nil_wildcard : (s : List Text) → matches_wildcard_path compile [] s ≡ false
  unfolding matches_wildcard_path
  nil_wildcard s = refl

  segments_match-nil : (xs : List Text) → segments_match compile xs [] ≡ false
  unfolding segments_match
  segments_match-nil [] = refl
  segments_match-nil (x ∷ xs) = ground (arith, wildcard_nil (x ∷ xs), nil_wildcard (x ∷ xs))

  nil-segments_match : (ys : List Text) → segments_match compile [] ys ≡ false
  unfolding segments_match
  nil-segments_match ys = refl

  segments_match_comm :
      (xs ys : List Text) → segments_match compile xs ys ≡ segments_match compile ys xs
  unfolding segments_match
  segments_match_comm [] ys = sym (segments_match-nil ys)
  segments_match_comm (x ∷ xs) [] = segments_match-nil (x ∷ xs)
  segments_match_comm (x ∷ xs) (y ∷ ys) = ground (arith, all_match_comm (x ∷ xs) (y ∷ ys))

  segments_match_refl : (xs : List Text) → xs ≢ [] → segments_match compile xs xs ≡ true
  unfolding segments_match
  segments_match_refl [] h = absurd (h refl)
  segments_match_refl (x ∷ xs) h = ground (arith, all_match_refl (x ∷ xs))

  -- The direction of a call does not matter to compatibility: where neither path is the unresolved
  -- `<dynamic>`, a call topic matches a served topic exactly when they match the other way round.
  pub paths_match_comm :
      (a b : Text)
      → (partition b' ' a).1 ≢ codes "<dynamic>"
      → (partition b' ' b).1 ≢ codes "<dynamic>"
      → paths_match compile a b ≡ paths_match compile b a
  unfolding paths_match
  paths_match_comm a b h k =
      let (m, p) = partition b' ' a in
      let (n, q) = partition b' ' b in
      ground (
        arith,
        text_beq_iff p (codes "<dynamic>"),
        text_beq_iff q (codes "<dynamic>"),
        text_beq_comm m n,
        segments_match_comm (split_path p) (split_path q),
      )

  -- A route that names at least one segment is reached by a call of the same topic.
  pub paths_match_refl :
      (a : Text)
      → (partition b' ' a).1 ≢ codes "<dynamic>"
      → split_path (partition b' ' a).1 ≢ []
      → paths_match compile a a ≡ true
  unfolding paths_match
  paths_match_refl a h k =
      let (m, p) = partition b' ' a in
      ground (
        arith,
        text_beq_iff p (codes "<dynamic>"),
        text_beq_iff m m,
        segments_match_refl (split_path p) k,
      )

  -- Where a call topic matches a served topic, the path of the call is not the unresolved
  -- `<dynamic>`, the methods are compatible and so are the segments of the two paths.
  pub paths_match_sound :
      (a b : Text)
      → paths_match compile a b ≡ true
      → ((partition b' ' a).1 ≢ codes "<dynamic>")
        × (http_methods_match a b ≡ true)
        × (segments_match compile
              (split_path (partition b' ' a).1)
              (split_path (partition b' ' b).1)
            ≡ true)
  unfolding paths_match http_methods_match
  paths_match_sound a b h =
      let (m, p) = partition b' ' a in
      let (n, q) = partition b' ' b in
      (
        λ e. ground (arith, text_beq_iff p (codes "<dynamic>")),
        ground (arith, text_beq_comm m n),
        ground arith,
      )
