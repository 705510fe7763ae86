-- ===== src/Complexity.antt =====
-- render/complexity.py: the three tiers of the nodes by their number of relations.
pub mod Laws
mod Examples
use systemlens.Prelude.{
  ℕ, suc, ◌+◌, ◌/◌, ◌%◌, Bool, List, [], ◌∷◌, ◌++◌, if◌then◌else◌, ltb, leb, nat_beq, length, take,
  drop, map,
}
use systemlens.Prelude.Dict.{Dict, keys}
use systemlens.Text.{Text}
use systemlens.Text.Order.{sort, text_leb}

pub data Level : Type 0 where
  low medium high : Level

pub record ComplexityRanking : Type 0 where
  pub level : Level
  pub rank : ℕ
  pub population : ℕ
  pub tier_start : ℕ
  pub tier_end : ℕ

-- key=lambda node_id: (relation_counts[node_id], node_id)
unfoldable pub node_leb : Text × ℕ → Text × ℕ → Bool
node_leb (a, m) (b, n) = if nat_beq m n then text_leb a b else ltb m n

unfoldable pub ranked_nodes : Dict Text ℕ → List Text
unfolding node_leb
ranked_nodes counts = keys (sort node_leb counts)

-- The size of the group of that index: one more for each of the first `remainder` groups.
unfoldable pub group_size : ℕ → ℕ → ℕ
group_size population index = population / 3 + (if ltb index (population % 3) then 1 else 0)

-- The inner loop, from a rank on.
unfoldable pub tier : Level → ℕ → ℕ → ℕ → ℕ → List Text → List (Text × ComplexityRanking)
tier level population offset size rank [] = []
tier level population offset size rank (node ∷ nodes) =
    (
      node,
      record {
        level = level;
        rank = rank;
        population = population;
        tier_start = offset + 1;
        tier_end = offset + size;
      },
    )
    ∷ tier level population offset size (suc rank) nodes

-- The three rounds of the outer loop.
unfoldable pub complexity_ranking : Dict Text ℕ → List (Text × ComplexityRanking)
unfolding ranked_nodes group_size tier
complexity_ranking counts =
    let nodes = ranked_nodes counts in
    let n = length nodes in
    let a = group_size n 0 in
    let b = group_size n 1 in
    let c = group_size n 2 in
    tier Level.low n 0 a 1 (take a nodes)
    ++ (tier Level.medium n a b (a + 1) (take b (drop a nodes))
        ++ tier Level.high n (a + b) c (a + b + 1) (take c (drop (a + b) nodes)))
