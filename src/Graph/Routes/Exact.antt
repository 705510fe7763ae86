-- ===== src/Graph/Routes/Exact.antt =====
-- An exact literal route wins over every template (ADR-77, in domain/graph.py).
use mathlib.Core.Logic.{⊎_elim}
use systemlens.Prelude.{
  ℕ, ◌≡◌, refl, sym, ap₂, true, false, ◌&&◌, not, none, List, [], ◌∷◌, if◌then◌else◌, length, Memᴰ,
  All, ◌==◌, arith,
}
use systemlens.Text.{Text, text_eq, text_beq_iff, codes, partition}
use systemlens.Models.{MessageEndpoint}
use systemlens.Graph.Paths.{
  Compile, split_path, is_template_segment, segment_matches, all_match, wildcard_prefix,
  matches_wildcard_path, segments_match, paths_match,
}
use systemlens.Graph.Paths.Laws.{IsLiteral, paths_match_sound}
use systemlens.Graph.Routes.{
  Rank, rank_leb, ends_in_wildcard, count_bindings, route_rank, rank_of, select_matching_routes,
}
use systemlens.Graph.Routes.Select.{select_sound, select_best}

no_wildcard_prefix : (xs : List Text) → ends_in_wildcard xs ≡ false → wildcard_prefix xs ≡ none
unfolding ends_in_wildcard wildcard_prefix
no_wildcard_prefix [] h = refl
no_wildcard_prefix (x ∷ []) h = rw h
no_wildcard_prefix (x ∷ y ∷ xs) h = rw (no_wildcard_prefix (y ∷ xs) h)

no_wildcard_match :
    (compile : Compile) (xs ys : List Text)
    → ends_in_wildcard xs ≡ false
    → matches_wildcard_path compile xs ys ≡ false
unfolding matches_wildcard_path
no_wildcard_match compile xs ys h = ground (arith, no_wildcard_prefix xs h)

literal_count : (xs ys : List Text) → All IsLiteral xs → count_bindings xs ys ≡ 0
unfolding count_bindings
literal_count [] ys h = refl
literal_count (x ∷ xs) [] h = refl
literal_count (x ∷ xs) (y ∷ ys) h = ground (arith, literal_count xs ys h.1)

module _ (compile : Compile) where
  segment_exact :
      (x y : Text)
      → IsLiteral x
      → segment_matches compile x y ≡ true
      → (is_template_segment y && not (is_template_segment x)) ≡ false
      → x ≡ y
  unfolding segment_matches
  segment_exact x y l h c = ground (arith, text_beq_iff x y)

  -- Literals that match segments binding none of them are those segments.
  unbound_exact :
      (xs ys : List Text)
      → All IsLiteral xs
      → length xs ≡ length ys
      → all_match compile xs ys ≡ true
      → count_bindings ys xs ≡ 0
      → xs ≡ ys
  unfolding all_match count_bindings
  unbound_exact [] [] l n h c = refl
  unbound_exact [] (y ∷ ys) l n h c = absurd (omega arith)
  unbound_exact (x ∷ xs) [] l n h c = absurd (omega arith)
  unbound_exact (x ∷ xs) (y ∷ ys) l n h c =
      ap₂ ◌∷◌ (segment_exact x y l.0 (ground arith) (ground arith))
        (unbound_exact xs ys l.1 (omega arith) (ground arith) (ground arith))

  segments_exact :
      (xs ys : List Text)
      → All IsLiteral xs
      → ends_in_wildcard xs ≡ false
      → ends_in_wildcard ys ≡ false
      → segments_match compile xs ys ≡ true
      → count_bindings ys xs ≡ 0
      → xs ≡ ys
  unfolding segments_match
  segments_exact [] ys l u v h c = cc
  segments_exact (x ∷ xs) ys l u v h c =
      let left = no_wildcard_match compile (x ∷ xs) ys u in
      let right = no_wildcard_match compile ys (x ∷ xs) v in
      unbound_exact (x ∷ xs) ys l (ground arith) (ground arith) c

-- A rank that is at most that of a route with nothing to bind.
least_rank :
    (xs ys : List Text) (m : ℕ) (zero_rank : Rank)
    → zero_rank.guessed ≡ 0
    → zero_rank.wildcard ≡ 0
    → zero_rank.bound ≡ 0
    → rank_leb (route_rank xs ys m) zero_rank ≡ true
    → (ends_in_wildcard ys ≡ false) × (count_bindings ys xs ≡ 0)
unfolding route_rank rank_leb
least_rank xs ys m z g w b h = ground arith

module _ (compile : Compile) (call_topic : Text) (serves : List MessageEndpoint) where
  abbrev call_segments : List Text
  call_segments = split_path (partition b' ' call_topic).1

  exact_rank :
      All IsLiteral call_segments
      → ends_in_wildcard call_segments ≡ false
      → (t : MessageEndpoint) → t.topic ≡ call_topic
      → ((rank_of call_topic t).guessed ≡ 0)
        × ((rank_of call_topic t).wildcard ≡ 0)
        × ((rank_of call_topic t).bound ≡ 0)
  unfolding rank_of route_rank
  exact_rank l o t e = rw e (rw (o, literal_count call_segments call_segments l) (refl, refl, refl))

  -- An exact literal route wins. Let the call have an explicit method and a path of literal
  -- segments that does not end in `**`, let the ids tell the served routes apart, and let one
  -- served route have the topic of the call and match it. Then every selected route has the
  -- segments of the call: no route that binds a template or a wildcard is selected.
  pub select_exact :
      ((partition b' ' call_topic).0 == codes "ANY") ≡ false
      → All IsLiteral call_segments
      → ends_in_wildcard call_segments ≡ false
      → ((a b : MessageEndpoint) → Memᴰ a serves → Memᴰ b serves → a.id ≡ b.id → a ≡ b)
      → (t : MessageEndpoint) → Memᴰ t serves
      → t.topic ≡ call_topic
      → paths_match compile call_topic t.topic ≡ true
      → (s : MessageEndpoint) → Memᴰ s (select_matching_routes compile call_topic serves)
      → split_path (partition b' ' s.topic).1 ≡ call_segments
  unfolding rank_of
  select_exact explicit l o unique t mt same ht s m =
      let (g, w, b) = exact_rank l o t same in
      let below : rank_leb (rank_of call_topic s) (rank_of call_topic t) ≡ true =
        ⊎_elim (λ h. absurd (omega (arith, g))) (λ h. h)
          (select_best compile call_topic serves explicit o unique s t m mt ht) in
      let serve_segments = split_path (partition b' ' s.topic).1 in
      let (open_end, free) =
        least_rank call_segments serve_segments
          (if (partition b' ' s.topic).0 == codes "ANY"
              && not ((partition b' ' call_topic).0 == codes "ANY")
            then 1
            else 0)
          (rank_of call_topic t) g w b below in
      sym (
        segments_exact compile call_segments serve_segments l o open_end
          (paths_match_sound compile call_topic s.topic
            (select_sound compile call_topic serves s m).1).2
          free)
