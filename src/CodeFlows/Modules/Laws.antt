-- ===== src/CodeFlows/Modules/Laws.antt =====
-- The counts by module count each internal flow once (application/code_flows.py).
use mathlib.Core.List.Memᴰ
use mathlib.Core.Logic.{⊎_elim}
use systemlens.Prelude.{
  ℕ, ◌+◌, ◌≡◌, refl, sym, ap, ◌∙◌, Bool, List, [], ◌∷◌, ◌++◌, if◌then◌else◌, filter, map, dedup,
  length, Memᴰ, Memᴰ-dedup, Distinct, Distinct-dedup, Bool-cases, inl, inr, arith,
}
use systemlens.Text.{Text, text_eq}
use systemlens.Text.Order.{sort, text_leb, Memᴰ-sort, Distinct-sort}
use systemlens.Models.{MessageEndpoint}
use systemlens.CodeFlows.{CodeFlow}
use systemlens.CodeFlows.Internal.{EndpointsById, by_id, is_internal_module_flow}
use systemlens.CodeFlows.Internal.Exact.{internal_iff}
use systemlens.CodeFlows.Modules.{
  modules_of, module_names, counts_of, total, internal_flow_stats_by_module,
}

-- The module that owns the flow counts it.
abbrev pub is_internal : EndpointsById → CodeFlow → Bool
is_internal d f = is_internal_module_flow f d f.in_module

module _ (d : EndpointsById) where
  abbrev one : CodeFlow → Text → ℕ
  one f m = if is_internal_module_flow f d m then 1 else 0

  abbrev summed : List Text → CodeFlow → ℕ
  summed [] f = 0
  summed (m ∷ ms) f = one f m + summed ms f

  elsewhere : (f : CodeFlow) (ms : List Text) → (¬ Memᴰ f.in_module ms) → summed ms f ≡ 0
  elsewhere f [] n = refl
  elsewhere f (m ∷ ms) n = elim (Bool-cases (is_internal_module_flow f d m)) [
    | inl t ↦ absurd (n (Memᴰ.head ((internal_iff f d m).0 t).owned))
    | inr t ↦
        let none_here : one f m ≡ 0 = rw t refl in
        omega (arith, none_here, elsewhere f ms (λ k. n (Memᴰ.tail k)))
  ]

  summed_once :
      (f : CodeFlow) (ms : List Text)
      → Distinct ms
      → Memᴰ f.in_module ms
      → summed ms f ≡ (if is_internal d f then 1 else 0)
  summed_once f [] q n = absurd (Memᴰ.not-nil n)
  summed_once f (m ∷ ms) q n =
      ⊎_elim
        (λ e.
          let away = elsewhere f ms (λ k. q.0 (Memᴰ.cast (sym e) k)) in
          let here : one f m ≡ (if is_internal d f then 1 else 0) = ap (one f) (sym e) in
          omega (arith, away, here))
        (λ k. elim (Bool-cases (is_internal_module_flow f d m)) [
          | inl t ↦ let e = ((internal_iff f d m).0 t).owned in absurd (q.0 (Memᴰ.cast (sym e) k))
          | inr t ↦
              let none_here : one f m ≡ 0 = rw t refl in
              let later = summed_once f ms q.1 k in omega (arith, none_here, later)
        ])
        (Memᴰ.cases_cons n)

  abbrev counted : List Text → List CodeFlow → ℕ
  counted [] flows = 0
  counted (m ∷ ms) flows =
      length (filter (λ f. is_internal_module_flow f d m) flows) + counted ms flows

  counted_none : (ms : List Text) → counted ms [] ≡ 0
  unfolding filter
  counted_none [] = refl
  counted_none (m ∷ ms) = omega (arith, counted_none ms)

  counted_more :
      (ms : List Text) (f : CodeFlow) (flows : List CodeFlow)
      → counted ms (f ∷ flows) ≡ summed ms f + counted ms flows
  unfolding filter
  counted_more [] f flows = omega arith
  counted_more (m ∷ ms) f flows = ground (arith, counted_more ms f flows)

  counted_once :
      (ms : List Text) (flows : List CodeFlow)
      → Distinct ms
      → ((f : CodeFlow) → Memᴰ f flows → Memᴰ f.in_module ms)
      → counted ms flows ≡ length (filter (is_internal d) flows)
  unfolding filter
  counted_once ms [] q h = counted_none ms
  counted_once ms (f ∷ flows) q h =
      let more = counted_more ms f flows in
      let this = summed_once f ms q (h f (Memᴰ.head refl)) in
      let later = counted_once ms flows q (λ g k. h g (Memᴰ.tail k)) in
      ground (arith, more, this, later)

total-counts :
    (flows : List CodeFlow) (endpoints : List MessageEndpoint) (ms : List Text)
    → total (map (λ m. (m, counts_of flows endpoints m)) ms) ≡ counted (by_id [] endpoints) ms flows
unfolding total counts_of
total-counts flows endpoints [] = refl
total-counts flows endpoints (m ∷ ms) = omega (arith, total-counts flows endpoints ms)

-- The total over the modules counts each internal flow once, for the module that owns it: it is the
-- number of the flows that are internal to their own module.
pub stats_by_module_total :
    (flows : List CodeFlow) (endpoints : List MessageEndpoint)
    → (internal_flow_stats_by_module flows endpoints).1
      ≡ length (filter (is_internal (by_id [] endpoints)) flows)
unfolding internal_flow_stats_by_module module_names
stats_by_module_total flows endpoints =
    let names = modules_of endpoints ++ map (λ (f : CodeFlow). f.in_module) flows in
    let ms = sort text_leb (dedup names) in
    total-counts flows endpoints ms
    ∙ counted_once (by_id [] endpoints) ms flows
        (Distinct-sort text_leb (dedup names) (Distinct-dedup names))
        (λ f k. (Memᴰ-sort text_leb f.in_module (dedup names)).1 (
          (Memᴰ-dedup f.in_module names).1 (
            Memᴰ.append_right (modules_of endpoints) (Memᴰ.map (λ (z : CodeFlow). z.in_module) k))))
