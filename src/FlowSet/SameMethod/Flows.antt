-- ===== src/FlowSet/SameMethod/Flows.antt =====
-- The flow of one trigger over the effects of its method (indexing/code_flows.py).
use mathlib.Core.List.Memᴰ
use mathlib.Core.Logic.{⊎_elim}
use systemlens.Prelude.{
  ℕ, suc, ◌≡◌, refl, sym, ap, subst, true, Option, some, List, [], ◌∷◌, filter, map, Memᴰ,
  Memᴰ-append, Memᴰ-filter,
}
use systemlens.Text.{Text, text_eq}
use systemlens.Text.Order.{sort, Memᴰ-sort}
use systemlens.Models.{MessageEndpoint}
use systemlens.DataOperations.{DataOperation}
use systemlens.CodeFlows.{CodeFlow, CodeFlowStep}
use systemlens.FlowSet.SameMethod.{Sources}
use systemlens.FlowSet.SameMethod.Nodes.{MethodNode, is_effect, encloses}
use systemlens.FlowSet.SameMethod.Effects.{
  effect_of, ranked, rank_point, rank_fact, Effect, Ranked, ranked_leb, effects_of_method,
  flow_over,
}
use systemlens.FlowSet.SameMethod.Marks.{mark_flow, marked}
use systemlens.FlowSet.SameMethod.Finish.{IsStable}
use systemlens.FlowSet.SameMethod.Chains.{IsEntry, Numbered, Known, Shows, effect_steps_total}

-- A flow is a trigger and at least one effect, numbered from one on.
pub record IsChain (flow : CodeFlow) : Type 0 where
  pub trigger : CodeFlowStep
  pub effect : CodeFlowStep
  pub effects : List CodeFlowStep
  pub is_whole : flow.steps ≡ trigger ∷ effect ∷ effects
  pub enters : IsEntry trigger.kind
  pub in_order : Numbered 1 flow.steps

-- A flow of a module leads from an endpoint to an effect.
pub record Leads (name : Text) (t : MessageEndpoint) (e : Effect) (flow : CodeFlow) : Type 0 where
  pub owned : flow.in_module ≡ name
  pub first : CodeFlowStep
  pub steps : List CodeFlowStep
  pub is_whole : flow.steps ≡ first ∷ steps
  pub triggered : first.endpoint_id ≡ some t.id
  pub shown : (s : CodeFlowStep) × (Memᴰ s steps × Shows e s)

module _ (b : Sources) where
  marks-Numbered :
      (n : ℕ) (steps : List CodeFlowStep)
      → Numbered n steps
      → Numbered n (map (marked b.after_commit_lines) steps)
  unfolding marked
  marks-Numbered n [] h = tt
  marks-Numbered n (s ∷ steps) (h, k) = (h, marks-Numbered (suc n) steps k)

  marked-Shows :
      (e : Effect) (s : CodeFlowStep) → Shows e s → Shows e (marked b.after_commit_lines s)
  unfolding marked
  marked-Shows (Effect.point e) s h = h
  marked-Shows (Effect.fact o) s h = h

  pub IsChain-IsStable : IsStable b IsChain
  unfolding mark_flow marked
  IsChain-IsStable =
      let mark = marked b.after_commit_lines in
      record {
        by_id = λ f t c. record {
          trigger = c.trigger;
          effect = c.effect;
          effects = c.effects;
          is_whole = c.is_whole;
          enters = c.enters;
          in_order = c.in_order;
        };
        by_mark = λ f c. record {
          trigger = mark c.trigger;
          effect = mark c.effect;
          effects = map mark c.effects;
          is_whole = ap (map mark) c.is_whole;
          enters = c.enters;
          in_order = marks-Numbered 1 f.steps c.in_order;
        };
      }

  pub Leads-IsStable :
      (name : Text) (t : MessageEndpoint) (e : Effect) → IsStable b (Leads name t e)
  unfolding mark_flow marked
  Leads-IsStable name t e =
      let mark = marked b.after_commit_lines in
      record {
        by_id = λ f id c. record {
          owned = c.owned;
          first = c.first;
          steps = c.steps;
          is_whole = c.is_whole;
          triggered = c.triggered;
          shown = c.shown;
        };
        by_mark = λ f c. record {
          owned = c.owned;
          first = mark c.first;
          steps = map mark c.steps;
          is_whole = ap (map mark) c.is_whole;
          triggered = c.triggered;
          shown = let (s, (m, h)) = c.shown in (mark s, (Memᴰ.map mark m, marked-Shows e s h));
        };
      }

-- The flow over known effects from a trigger.
pub record Over (build : CodeFlowStep → List CodeFlowStep → CodeFlow) (s : CodeFlowStep)
    (es : List Effect) (result : Option (List CodeFlow)) : Type 0 where
  pub flows : List CodeFlow
  pub made : result ≡ some flows
  pub chains : (f : CodeFlow) → Memᴰ f flows → IsChain f
  pub covers :
      (e : Effect)
      → Memᴰ e es
      → (steps : List CodeFlowStep) × (Memᴰ (build s steps) flows
          × ((u : CodeFlowStep) × (Memᴰ u steps × Shows e u)))

IsChain-of :
    (f : CodeFlow) (s u : CodeFlowStep) (steps : List CodeFlowStep)
    → f.steps ≡ s ∷ steps
    → Memᴰ u steps
    → IsEntry s.kind
    → s.order ≡ 1
    → Numbered 2 steps
    → IsChain f
IsChain-of f s u [] q m i o n = absurd (Memᴰ.not-nil m)
IsChain-of f s u (e ∷ steps) q m i o n = record {
  trigger = s;
  effect = e;
  effects = steps;
  is_whole = q;
  enters = i;
  in_order = subst (Numbered 1) (sym q) (o, n);
}

pub flow_over_total :
    (build : CodeFlowStep → List CodeFlowStep → CodeFlow) (s : CodeFlowStep) (es : List Effect)
    → ((ss : List CodeFlowStep) → (build s ss).steps ≡ s ∷ ss)
    → IsEntry s.kind
    → s.order ≡ 1
    → ((e : Effect) → Memᴰ e es → Known e)
    → Over build s es (flow_over build (some s) es)
unfolding flow_over
flow_over_total build s [] st i o h = record {
  flows = [];
  made = refl;
  chains = λ f m. absurd (Memᴰ.not-nil m);
  covers = λ e m. absurd (Memᴰ.not-nil m);
}
flow_over_total build s (e ∷ es) st i o h =
    let (steps, (q, (n, shown))) = effect_steps_total 2 s.kind (e ∷ es) h in
    record {
      flows = build s steps ∷ [];
      made = rw (q, flow_over) refl;
      chains = λ f m. subst IsChain (sym (Memᴰ.eq_of_singleton m)) (
          let (u, (at, _)) = shown e (Memᴰ.head refl) in
          IsChain-of (build s steps) s u steps (st steps) at i o n);
      covers = λ g m. (steps, (Memᴰ.head refl, shown g m));
    }

-- The endpoints, and the operations within a method's lines, are among its effects.
pub data Among (endpoints : List MessageEndpoint) (operations : List DataOperation) (m : MethodNode)
    : Effect → Type 0 where
  of_point :
      {p : MessageEndpoint} → Memᴰ p endpoints → Among endpoints operations m (Effect.point p)
  of_fact :
      {o : DataOperation}
      → Memᴰ o operations
      → encloses m o.line ≡ true
      → Among endpoints operations m (Effect.fact o)

module _ (endpoints : List MessageEndpoint) (operations : List DataOperation) (m : MethodNode) where
  pub effects-Known :
      ((p : MessageEndpoint) → Memᴰ p endpoints → is_effect p ≡ true)
      → (e : Effect) → Memᴰ e (effects_of_method endpoints operations m)
      → Known e
  unfolding effects_of_method ranked
  effects-Known h e n =
      let (r, k, q) = Memᴰ.of_map effect_of (sort ranked_leb (ranked endpoints operations m)) n in
      let at = (Memᴰ-sort ranked_leb r (ranked endpoints operations m)).0 k in
      subst Known q (
        ⊎_elim
          (λ p.
            let (x, i, s) = Memᴰ.of_map rank_point endpoints p in
            subst (λ t. Known (effect_of t)) s (point_known x (h x i)))
          (λ f.
            let (x, i, s) = Memᴰ.of_map rank_fact (filter (λ o. encloses m o.line) operations) f in
            subst (λ t. Known (effect_of t)) s (fact_known x))
          ((Memᴰ-append r (map rank_point endpoints)
              (map rank_fact (filter (λ o. encloses m o.line) operations))).0
            at))
    where
      point_known : (x : MessageEndpoint) → is_effect x ≡ true → Known (effect_of (rank_point x))
      point_known x h = h

      fact_known : (x : DataOperation) → Known (effect_of (rank_fact x))
      fact_known x = tt

  pub effects_complete :
      (e : Effect)
      → Among endpoints operations m e
      → Memᴰ e (effects_of_method endpoints operations m)
  unfolding effects_of_method ranked rank_point rank_fact
  effects_complete e a = go e a
    where
      here :
          (r : Ranked)
          → Memᴰ r (ranked endpoints operations m)
          → Memᴰ (effect_of r) (effects_of_method endpoints operations m)
      here r k = Memᴰ.map effect_of ((Memᴰ-sort ranked_leb r (ranked endpoints operations m)).1 k)

      go :
          (e : Effect)
          → Among endpoints operations m e
          → Memᴰ e (effects_of_method endpoints operations m)
      go (Effect.point p) (of_point k) =
          here (rank_point p) (Memᴰ.append_left _ (Memᴰ.map rank_point k))
      go (Effect.fact o) (of_fact k t) = here (rank_fact o) (
          Memᴰ.append_right (map rank_point endpoints)
            (Memᴰ.map rank_fact ((Memᴰ-filter (λ o. encloses m o.line) o operations).1 (k, t))))
