-- ===== src/FlowSet/Dedup/Order.antt =====
-- The order by which a group of flows gets its representative: it is a strict order, so that `min`
-- finds a flow that none is preferred to (indexing/code_flows.py).
use mathlib.Core.List.Memᴰ
use mathlib.Core.Logic.{⊎_elim}
use systemlens.Prelude.{
  ℕ, ◌≡◌, refl, ap, ◌∙◌, Bool, true, false, List, [], ◌∷◌, Memᴰ, Bool-cases, inl, inr, arith,
  if◌then◌else◌,
}
use systemlens.Text.Order.{text_ltb_trans, text_ltb_irrefl}
use systemlens.CodeFlows.{CodeFlow}
use systemlens.FlowSet.Dedup.{
  rising, falling, id_ltb, without_calls, rank_of, call_count, step_count, preferred, least,
}

abbrev IsStrict : (CodeFlow → CodeFlow → Bool) → Type 0
IsStrict lt =
    ((a : CodeFlow) → lt a a ≡ false)
    × ((a b c : CodeFlow) → lt a b ≡ true → lt b c ≡ true → lt a c ≡ true)

rising-IsStrict :
    (f : CodeFlow → ℕ) (next : CodeFlow → CodeFlow → Bool)
    → IsStrict next
    → IsStrict (rising f next)
unfolding rising
rising-IsStrict f next s = (λ a. ground (arith, s.0 a), λ a b c h k. ground (arith, s.1 a b c))

falling-IsStrict :
    (f : CodeFlow → ℕ) (next : CodeFlow → CodeFlow → Bool)
    → IsStrict next
    → IsStrict (falling f next)
unfolding falling
falling-IsStrict f next s = (λ a. ground (arith, s.0 a), λ a b c h k. ground (arith, s.1 a b c))

preferred-IsStrict : IsStrict preferred
unfolding preferred id_ltb
preferred-IsStrict = rising-IsStrict without_calls _ (
    rising-IsStrict rank_of _ (
      falling-IsStrict call_count _ (
        rising-IsStrict step_count id_ltb
          (λ a. text_ltb_irrefl a.id, λ a b c. text_ltb_trans a.id b.id c.id))))

least_step :
    (best flow : CodeFlow) (flows : List CodeFlow) (b : Bool)
    → preferred flow best ≡ b
    → least best (flow ∷ flows) ≡ least (if b then flow else best) flows
unfolding least
least_step best flow flows b t = ap (λ (c : Bool). least (if c then flow else best) flows) t

pub least-Memᴰ : (best : CodeFlow) (flows : List CodeFlow) → Memᴰ (least best flows) (best ∷ flows)
unfolding least
least-Memᴰ best [] = Memᴰ.head refl
least-Memᴰ best (flow ∷ flows) = elim (Bool-cases (preferred flow best)) [
  | inl t ↦ rw t (Memᴰ.tail (least-Memᴰ flow flows))
  | inr t ↦
      rw t
        (⊎_elim Memᴰ.head (λ n. Memᴰ.tail (Memᴰ.tail n)) (Memᴰ.cases_cons (least-Memᴰ best flows)))
]

-- What is not preferred to the first candidate is not preferred to the least one.
least_below :
    (best : CodeFlow) (flows : List CodeFlow) (y : CodeFlow)
    → preferred y best ≡ false
    → preferred y (least best flows) ≡ false
unfolding least
least_below best [] y h = h
least_below best (flow ∷ flows) y h = elim (Bool-cases (preferred flow best)) [
  | inl t ↦
      ap (preferred y) (least_step best flow flows true t)
      ∙ least_below flow flows y (elim (Bool-cases (preferred y flow)) [
        | inl k ↦ cc (preferred-IsStrict.1 y flow best k t)
        | inr k ↦ k
      ])
  | inr t ↦ ap (preferred y) (least_step best flow flows false t) ∙ least_below best flows y h
]

pub least_lem :
    (best : CodeFlow) (flows : List CodeFlow) (y : CodeFlow)
    → Memᴰ y (best ∷ flows)
    → preferred y (least best flows) ≡ false
unfolding least
least_lem best [] y m =
    ap (λ a. preferred a best) (Memᴰ.eq_of_singleton m) ∙ preferred-IsStrict.0 best
least_lem best (flow ∷ flows) y m =
    ⊎_elim
      (λ e.
        least_below best (flow ∷ flows) y
          (ap (λ a. preferred a best) e ∙ preferred-IsStrict.0 best))
      (λ n. elim (Bool-cases (preferred flow best)) [
        | inl t ↦ ap (preferred y) (least_step best flow flows true t) ∙ least_lem flow flows y n
        | inr t ↦
            ap (preferred y) (least_step best flow flows false t)
            ∙ (⊎_elim (λ e. least_below best flows y (ap (λ a. preferred a best) e ∙ t))
                (λ r. least_lem best flows y (Memᴰ.tail r)) (Memᴰ.cases_cons n))
      ])
      (Memᴰ.cases_cons m)
