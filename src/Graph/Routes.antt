-- ===== src/Graph/Routes.antt =====
-- _route_rank and select_matching_routes of domain/graph.py.
pub mod Ranks
pub mod Select
pub mod Exact
use systemlens.Prelude.{
  ℕ, zero, suc, ◌+◌, Bool, true, false, ◌&&◌, ◌||◌, not, Option, none, some, List, [], ◌∷◌, ◌++◌,
  if◌then◌else◌, ◌==◌, ltb, leb, nat_beq, filter, map, contains, length,
}
use systemlens.Prelude.Dict.{Dict, group_all, values}
use systemlens.Text.{Text, text_eq, codes, partition}
use systemlens.Models.{MessageEndpoint}
use systemlens.Graph.Paths.{Compile, split_path, is_template_segment, paths_match}

-- The tuple that Python compares: guesses, wildcard, bound literals, method.
pub record Rank : Type 0 where
  pub guessed : ℕ
  pub wildcard : ℕ
  pub bound : ℕ
  pub any_method : ℕ

-- The order of tuples.
unfoldable pub rank_leb : Rank → Rank → Bool
rank_leb a b =
    ltb a.guessed b.guessed
    || (nat_beq a.guessed b.guessed
        && (ltb a.wildcard b.wildcard
            || (nat_beq a.wildcard b.wildcard
                && (ltb a.bound b.bound
                    || (nat_beq a.bound b.bound && leb a.any_method b.any_method)))))

unfoldable pub rank_beq : Rank → Rank → Bool
rank_beq a b =
    nat_beq a.guessed b.guessed
    && nat_beq a.wildcard b.wildcard
    && nat_beq a.bound b.bound
    && nat_beq a.any_method b.any_method

-- segments and segments[-1] == "**"
unfoldable pub ends_in_wildcard : List Text → Bool
ends_in_wildcard [] = false
ends_in_wildcard (x ∷ []) = x == codes "**"
ends_in_wildcard (x ∷ y ∷ xs) = ends_in_wildcard (y ∷ xs)

-- sum(1 for a, b in zip(xs, ys) if template(a) and not template(b))
unfoldable pub count_bindings : List Text → List Text → ℕ
count_bindings [] ys = 0
count_bindings (x ∷ xs) [] = 0
count_bindings (x ∷ xs) (y ∷ ys) =
    (if is_template_segment x && not (is_template_segment y) then 1 else 0) + count_bindings xs ys

-- _route_rank, with the method's place that select_matching_routes adds
unfoldable pub route_rank : List Text → List Text → ℕ → Rank
unfolding ends_in_wildcard count_bindings
route_rank call_segments serve_segments method_rank =
    if ends_in_wildcard serve_segments
    then record {
      guessed = 0;
      wildcard = 1;
      bound = length serve_segments;
      any_method = method_rank;
    }
    else record {
      guessed = if leb 1 (count_bindings call_segments serve_segments) then 1 else 0;
      wildcard = 0;
      bound = count_bindings serve_segments call_segments;
      any_method = method_rank;
    }

unfoldable pub rank_of : Text → MessageEndpoint → Rank
unfolding route_rank
rank_of call_topic serve =
    let (call_method, call_path) = partition b' ' call_topic in
    let (serve_method, serve_path) = partition b' ' serve.topic in
    route_rank (split_path call_path) (split_path serve_path)
      (if serve_method == codes "ANY" && not (call_method == codes "ANY") then 1 else 0)

unfoldable pub group_of : Text → MessageEndpoint → Text
group_of call_topic serve =
    if (partition b' ' call_topic).0 == codes "ANY" then (partition b' ' serve.topic).0 else []

-- min(rank for rank, _serve in ranked), `best` being the least so far
unfoldable pub min_rank : Rank → List (Rank × MessageEndpoint) → Rank
min_rank best [] = best
min_rank best ((rank, serve) ∷ ranked) = min_rank (if rank_leb best rank then best else rank) ranked

ids_at : Rank → List (Rank × MessageEndpoint) → List Text
ids_at best [] = []
ids_at best ((rank, serve) ∷ ranked) =
    let others = ids_at best ranked in
    if leb 1 best.guessed || rank_beq rank best then serve.id ∷ others else others

-- The ids that one group selects: those of the best rank, or all where every candidate guesses.
unfoldable pub selected_ids : List (Rank × MessageEndpoint) → List Text
unfolding ids_at min_rank
selected_ids [] = []
selected_ids ((rank, serve) ∷ ranked) = ids_at (min_rank rank ranked) ((rank, serve) ∷ ranked)

unfoldable pub all_ids : List (List (Rank × MessageEndpoint)) → List Text
unfolding selected_ids
all_ids [] = []
all_ids (ranked ∷ groups) = selected_ids ranked ++ all_ids groups

unfoldable pub ranked_groups :
    Text → List MessageEndpoint → Dict Text (List (Rank × MessageEndpoint))
unfolding rank_of group_of
ranked_groups call_topic candidates =
    group_all (group_of call_topic) (λ serve. (rank_of call_topic serve, serve)) [] candidates

module _ (compile : Compile) where
  unfoldable pub candidates_of : Text → List MessageEndpoint → List MessageEndpoint
  candidates_of call_topic serves =
      filter (λ serve. paths_match compile call_topic serve.topic) serves

  unfoldable pub select_matching_routes : Text → List MessageEndpoint → List MessageEndpoint
  unfolding all_ids ranked_groups candidates_of
  select_matching_routes call_topic serves =
      let candidates = candidates_of call_topic serves in
      let call_segments = split_path (partition b' ' call_topic).1 in
      let selected = all_ids (values (ranked_groups call_topic candidates)) in
      if ltb (length candidates) 2 || ends_in_wildcard call_segments
      then candidates
      else filter (λ serve. contains selected serve.id) candidates
