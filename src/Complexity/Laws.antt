-- ===== src/Complexity/Laws.antt =====
-- The tiers of render/complexity.py: bounds, and every node once and in order.
use mathlib.Core.List.Memᴰ
use mathlib.Core.Logic.{⊎_elim}
use systemlens.Prelude.{
  ℕ, zero, suc, ◌+◌, ◌≤◌, ◌≡◌, refl, sym, ap, ◌∙◌, List, [], ◌∷◌, ◌++◌, length, take, drop, Memᴰ,
  arith, subst,
}
use systemlens.Prelude.Dict.{Dict, keys}
use systemlens.Text.{Text}
use systemlens.Complexity.{
  Level, ComplexityRanking, ranked_nodes, group_size, tier, complexity_ranking,
}

sizes_sum : (n : ℕ) → group_size n 0 + (group_size n 1 + group_size n 2) ≡ n
unfolding group_size
sizes_sum n = ground arith

length-take : (k : ℕ) (xs : List Text) → length (take k xs) ≤ k
length-take zero xs = omega arith
length-take (suc k) [] = omega arith
length-take (suc k) (x ∷ xs) = omega (arith, length-take k xs)

-- A rank stands within its tier, and the tier within the population.
pub record IsPlaced (n : ℕ) (r : ComplexityRanking) : Type 0 where
  pub above : r.tier_start ≤ r.rank
  pub below : r.rank ≤ r.tier_end
  pub inside : r.tier_end ≤ r.population
  pub population : r.population ≡ n

tier-IsPlaced :
    (l : Level) (n offset size rank : ℕ) (nodes : List Text) (node : Text) (r : ComplexityRanking)
    → offset + 1 ≤ rank
    → rank + length nodes ≤ offset + size + 1
    → offset + size ≤ n
    → Memᴰ (node, r) (tier l n offset size rank nodes)
    → IsPlaced n r
unfolding tier
tier-IsPlaced l n offset size rank [] node r a b c m = absurd (Memᴰ.not-nil m)
tier-IsPlaced l n offset size rank (x ∷ nodes) node r a b c m =
    ⊎_elim
      (λ e.
        subst (IsPlaced n) (sym (ap (λ (p : Text × ComplexityRanking). p.1) e))
          (record { above = a; below = omega (arith, b); inside = c; population = refl }))
      (tier-IsPlaced l n offset size (suc rank) nodes node r (omega (arith, a)) (omega (arith, b))
        c)
      (Memᴰ.cases_cons m)

-- Every rank stands within the bounds of its tier, both included, and these within the number of
-- the ranked nodes, which is the population.
pub complexity_IsPlaced :
    (counts : Dict Text ℕ) (node : Text) (r : ComplexityRanking)
    → Memᴰ (node, r) (complexity_ranking counts)
    → IsPlaced (length (ranked_nodes counts)) r
unfolding complexity_ranking
complexity_IsPlaced counts node r m =
    let nodes = ranked_nodes counts in
    let n = length nodes in
    let a = group_size n 0 in
    let b = group_size n 1 in
    let c = group_size n 2 in
    let sum = sizes_sum n in
    ⊎_elim
      (tier-IsPlaced Level.low n 0 a 1 (take a nodes) node r (omega arith)
        (omega (arith, length-take a nodes)) (omega (arith, sum)))
      (λ k.
        ⊎_elim
          (tier-IsPlaced Level.medium n a b (a + 1) (take b (drop a nodes)) node r (omega arith)
            (omega (arith, length-take b (drop a nodes))) (omega (arith, sum)))
          (tier-IsPlaced Level.high n (a + b) c (a + b + 1) (take c (drop (a + b) nodes)) node r
            (omega arith) (omega (arith, length-take c (drop (a + b) nodes))) (omega (arith, sum)))
          (Memᴰ.append_cases (tier Level.medium n a b (a + 1) (take b (drop a nodes))) k))
      (Memᴰ.append_cases (tier Level.low n 0 a 1 (take a nodes)) m)

abbrev names : List (Text × ComplexityRanking) → List Text
names = keys

names_append : (xs ys : List (Text × ComplexityRanking)) → names (xs ++ ys) ≡ names xs ++ names ys
names_append [] ys = refl
names_append ((x, r) ∷ xs) ys = ap (λ (z : List Text). x ∷ z) (names_append xs ys)

names-tier :
    (l : Level) (n offset size rank : ℕ) (nodes : List Text)
    → names (tier l n offset size rank nodes) ≡ nodes
unfolding tier
names-tier l n offset size rank [] = refl
names-tier l n offset size rank (x ∷ nodes) =
    ap (λ (z : List Text). x ∷ z) (names-tier l n offset size (suc rank) nodes)

take_all : (k : ℕ) (xs : List Text) → length xs ≤ k → take k xs ≡ xs
take_all zero [] h = refl
take_all zero (x ∷ xs) h = absurd (omega (arith, h))
take_all (suc k) [] h = refl
take_all (suc k) (x ∷ xs) h = ap (λ (z : List Text). x ∷ z) (take_all k xs (omega (arith, h)))

take-drop : (k : ℕ) (xs : List Text) → take k xs ++ drop k xs ≡ xs
take-drop zero xs = refl
take-drop (suc k) [] = refl
take-drop (suc k) (x ∷ xs) = ap (λ (z : List Text). x ∷ z) (take-drop k xs)

drop_nil : (k : ℕ) → drop {A = Text} k [] ≡ []
drop_nil zero = refl
drop_nil (suc k) = refl

drop-drop : (a b : ℕ) (xs : List Text) → drop b (drop a xs) ≡ drop (a + b) xs
drop-drop zero b xs = ap (λ (k : ℕ). drop k xs) (omega arith)
drop-drop (suc a) b [] = drop_nil b ∙ sym (drop_nil (suc a + b))
drop-drop (suc a) b (x ∷ xs) =
    let e : suc (a + b) ≡ suc a + b = omega arith in
    drop-drop a b xs ∙ ap (λ (k : ℕ). drop k (x ∷ xs)) e

length-drop : (a c : ℕ) (xs : List Text) → length xs ≤ a + c → length (drop a xs) ≤ c
length-drop zero c xs h = omega (arith, h)
length-drop (suc a) c [] h = omega arith
length-drop (suc a) c (x ∷ xs) h = length-drop a c xs (omega (arith, h))

-- Every ranked node has one ranking, and the rankings stand in the order of the nodes.
pub keys-complexity_ranking :
    (counts : Dict Text ℕ) → keys (complexity_ranking counts) ≡ ranked_nodes counts
unfolding complexity_ranking
keys-complexity_ranking counts =
    let nodes = ranked_nodes counts in
    let n = length nodes in
    let a = group_size n 0 in
    let b = group_size n 1 in
    let c = group_size n 2 in
    let last_tier : take c (drop (a + b) nodes) ≡ drop b (drop a nodes) =
      take_all c (drop (a + b) nodes) (length-drop (a + b) c nodes (omega (arith, sizes_sum n)))
      ∙ sym (drop-drop a b nodes) in
    let low = tier Level.low n 0 a 1 (take a nodes) in
    let medium = tier Level.medium n a b (a + 1) (take b (drop a nodes)) in
    let high = tier Level.high n (a + b) c (a + b + 1) (take c (drop (a + b) nodes)) in
    let split : names (low ++ (medium ++ high)) ≡ names low ++ (names medium ++ names high) =
      names_append low (medium ++ high)
      ∙ ap (λ (z : List Text). names low ++ z) (names_append medium high) in
    split
    ∙ (rw
        (
          names-tier Level.low n 0 a 1 (take a nodes),
          names-tier Level.medium n a b (a + 1) (take b (drop a nodes)),
          names-tier Level.high n (a + b) c (a + b + 1) (take c (drop (a + b) nodes)),
          last_tier,
          take-drop b (drop a nodes),
          take-drop a nodes,
        )
        refl)
