-- ===== src/Complexity/Examples.antt =====
-- Runs of the tiers of complexity (render/complexity.py).
use systemlens.Prelude.{ℕ, refl, [], ◌∷◌, Memᴰ, length}
use systemlens.Prelude.Dict.{Dict}
use systemlens.Text.{Text, codes}
use systemlens.Text.Order.{sort}
use systemlens.Complexity.{Level, ComplexityRanking, complexity_ranking, ranked_nodes}
use systemlens.Complexity.Laws.{IsPlaced, complexity_IsPlaced}

abbrev two_nodes : Dict Text ℕ
two_nodes = (codes "a", 5) ∷ (codes "b", 2) ∷ []

abbrev first_rank : ComplexityRanking
first_rank = record { level = Level.low; rank = 1; population = 2; tier_start = 1; tier_end = 1 }

first_there : Memᴰ (codes "b", first_rank) (complexity_ranking two_nodes)
unfolding complexity_ranking sort systemlens.Text.Order.insert
first_there = Memᴰ.head refl

complexity_IsPlaced_example : IsPlaced (length (ranked_nodes two_nodes)) first_rank
complexity_IsPlaced_example = complexity_IsPlaced two_nodes (codes "b") first_rank first_there
