-- ===== src/FlowSet/SameMethod/Laws.antt =====
-- What the pass over single methods gives (indexing/code_flows.py).
use mathlib.Core.List.Memᴰ
use mathlib.Core.Logic.{⊎_elim}
use systemlens.Prelude.{
  ◌≡◌, refl, sym, ap, ◌∙◌, subst, inr, true, not, Option, none, some, List, [], ◌∷◌, ◌++◌, filter,
  map, Memᴰ, Memᴰ-append, Memᴰ-filter, Distinct, ◌==◌,
}
use systemlens.Prelude.Gather.{gather, gather_total, joined}
use systemlens.Text.{Text, text_eq}
use systemlens.Models.{MessageEndpoint}
use systemlens.CodeFlows.{CodeFlow, CodeFlowStep}
use systemlens.FlowSet.SameMethod.{
  Sources, trigger_build, scheduled_build, scheduled_effects, scheduled_by, finished_or, Facts,
  Owned, flow_from, operations_at, trigger_effects, trigger_flow, scheduled_step, scheduled_owner,
  scheduled_from, scheduled_flow, owned_flows, owned_of_file, indexed_paths, file_flows,
  materialize_code_flows,
}
use systemlens.FlowSet.SameMethod.Nodes.{is_trigger, is_effect, module_of}
use systemlens.FlowSet.SameMethod.Effects.{Effect, flow_over}
use systemlens.FlowSet.SameMethod.Finish.{finished_lem}
use systemlens.FlowSet.SameMethod.Chains.{IsEntry, trigger_known}
use systemlens.FlowSet.SameMethod.Flows.{
  IsChain, Leads, Over, flow_over_total, Among, effects-Known, effects_complete, IsChain-IsStable,
  Leads-IsStable,
}

-- The effects of a method that a trigger of it reaches: the other effects that the method owns, and
-- the operations of the trigger's module that the index has for the method within its lines.
abbrev pub Reaches : Facts → Owned → MessageEndpoint → Effect → Type 0
Reaches facts o t =
    Among (filter (λ e. not (e.id == t.id)) (filter is_effect o.endpoints))
      (operations_at facts (module_of t) o) o.node

module _ (b : Sources) (facts : Facts) where
  trigger-Over :
      (o : Owned) (t : MessageEndpoint)
      → is_trigger t ≡ true
      → (s : CodeFlowStep) × ((s.endpoint_id ≡ some t.id)
          × Over (trigger_build b o t) s (trigger_effects facts o t) (trigger_flow b facts o t))
  unfolding trigger_flow trigger_effects trigger_build flow_from
  trigger-Over o t h =
      let (k, (st, entry)) = trigger_known t 1 h in
      let effects = trigger_effects facts o t in
      let build = trigger_build b o t in
      (
        st.step,
        (
          st.of_endpoint,
          subst (λ x. Over build st.step effects (flow_over build x effects)) (sym st.made)
              (flow_over_total build st.step effects (λ ss. refl)
                (subst IsEntry (sym st.kind_of) entry) st.ordered
                (effects-Known _ (operations_at facts (module_of t) o) o.node (λ p m.
                  ((Memᴰ-filter is_effect p o.endpoints).0
                    ((Memᴰ-filter (λ e. not (e.id == t.id)) p _).0 m).0).1))),
        ),
      )

  -- The flows of the scheduler of a method are chains, and there is no KeyError.
  Chained : Option (List CodeFlow) → Type 0
  Chained result =
      (flows : List CodeFlow) × ((result ≡ some flows)
        × ((f : CodeFlow) → Memᴰ f flows → IsChain f))

  scheduled_from-Chained :
      (o : Owned) (label : Text) (owner : Option (Text × Option Text))
      → Chained (scheduled_from b facts o label owner)
  unfolding Chained scheduled_from scheduled_effects scheduled_step scheduled_build flow_from
  scheduled_from-Chained o label none = ([], (refl, λ f m. absurd (Memᴰ.not-nil m)))
  scheduled_from-Chained o label (some (name, q)) =
      let over =
        flow_over_total (scheduled_build b o label name q) (scheduled_step o label)
          (scheduled_effects facts o name) (λ ss. refl) (inr (inr refl)) refl
          (effects-Known (filter is_effect o.endpoints) (operations_at facts name o) o.node
            (λ p m. ((Memᴰ-filter is_effect p o.endpoints).0 m).1)) in
      (over.flows, (over.made, over.chains))

  scheduled_by-Chained : (o : Owned) (label : Option Text) → Chained (scheduled_by b facts o label)
  unfolding Chained scheduled_by
  scheduled_by-Chained o none = ([], (refl, λ f m. absurd (Memᴰ.not-nil m)))
  scheduled_by-Chained o (some label) = scheduled_from-Chained o label (scheduled_owner facts o)

  some_injective : {xs ys : List CodeFlow} → some xs ≡ some ys → xs ≡ ys
  some_injective q = cc

  joined-some :
      (ys zs : List CodeFlow) (p q : Option (List CodeFlow))
      → p ≡ some ys
      → q ≡ some zs
      → joined p q ≡ some (ys ++ zs)
  unfolding joined
  joined-some ys zs p q h k = rw (h, k) refl

  -- What a method, and then a file, contributes: chains, and a flow from each trigger to each
  -- effect that it reaches.
  record Gives (os : List Owned) (result : Option (List CodeFlow)) : Type 0 where
    flows : List CodeFlow
    made : result ≡ some flows
    chains : (f : CodeFlow) → Memᴰ f flows → IsChain f
    leads :
        (o : Owned) (t : MessageEndpoint) (e : Effect)
        → Memᴰ o os
        → Memᴰ t o.endpoints
        → is_trigger t ≡ true
        → Reaches facts o t e
        → (f : CodeFlow) × (Memᴰ f flows × Leads (module_of t) t e f)

  owned_flows-Gives : (o : Owned) → Gives (o ∷ []) (owned_flows b facts o)
  unfolding owned_flows scheduled_flow Chained trigger_effects trigger_build flow_from
  owned_flows-Gives o =
      let triggers = filter is_trigger o.endpoints in
      let at = λ (t : MessageEndpoint) (m : Memᴰ t triggers).
        trigger-Over o t ((Memᴰ-filter is_trigger t o.endpoints).0 m).1 in
      let (fs, (e, (into, out))) =
        gather_total (trigger_flow b facts o) triggers
          (λ t m. let (s, (q, over)) = at t m in (over.flows, over.made)) in
      let (ss, (d, chained)) = scheduled_by-Chained o o.node.schedule in
      record {
        flows = fs ++ ss;
        made = joined-some fs ss (gather (trigger_flow b facts o) triggers) _ e d;
        chains = λ f m.
            ⊎_elim
              (λ n.
                let (t, (k, (ys, (r, i)))) = out f n in
                let (s, (q, over)) = at t k in
                over.chains f (subst (Memᴰ f) (some_injective (sym r ∙ over.made)) i))
              (chained f) ((Memᴰ-append f fs ss).0 m);
        leads = λ p t eff here m h reach.
            let same : p ≡ o = Memᴰ.eq_of_singleton here in
            let k =
              (Memᴰ-filter is_trigger t o.endpoints).1
                (subst (λ (x : Owned). Memᴰ t x.endpoints) same m, h) in
            let (s, (q, over)) = at t k in
            let (steps, (i, shown)) = over.covers eff (
              effects_complete _ (operations_at facts (module_of t) o) o.node eff
                (subst (λ (x : Owned). Reaches facts x t eff) same reach)) in
            let f = trigger_build b o t s steps in
            (
              f,
              (
                Memᴰ.append_left ss (into t over.flows f k over.made i),
                record {
                  owned = refl;
                  first = s;
                  steps = steps;
                  is_whole = refl;
                  triggered = q;
                  shown = shown;
                },
              ),
            );
      }

  -- A loop over what each gives.
  gathered :
      {A : Type 0} (f : A → Option (List CodeFlow)) (os : A → List Owned) (xs : List A)
      → ((x : A) → Gives (os x) (f x))
      → (flows : List CodeFlow) × ((gather f xs ≡ some flows)
          × (((g : CodeFlow) → Memᴰ g flows → IsChain g)
              × ((x : A) (o : Owned) (t : MessageEndpoint) (e : Effect)
                  → Memᴰ x xs
                  → Memᴰ o (os x)
                  → Memᴰ t o.endpoints
                  → is_trigger t ≡ true
                  → Reaches facts o t e
                  → (g : CodeFlow) × (Memᴰ g flows × Leads (module_of t) t e g))))
  gathered f os xs h =
      let (fs, (e, (into, out))) = gather_total f xs (λ x m. ((h x).flows, (h x).made)) in
      (
        fs,
        (
          e,
          (
            λ g m.
                let (x, (k, (ys, (r, i)))) = out g m in
                (h x).chains g (subst (Memᴰ g) (some_injective (sym r ∙ (h x).made)) i),
            λ x o t eff m n k i reach.
                let (g, (at, l)) = (h x).leads o t eff n k i reach in
                (g, (into x (h x).flows g m (h x).made at, l)),
          ),
        ),
      )

  file_flows-Gives : (path : Text) → Gives (owned_of_file b facts path) (file_flows b facts path)
  unfolding file_flows
  file_flows-Gives path =
      let os = owned_of_file b facts path in
      let (fs, (e, (chained, leads))) =
        gathered (owned_flows b facts) (λ (o : Owned). o ∷ []) os owned_flows-Gives in
      record {
        flows = fs;
        made = e;
        chains = chained;
        leads = λ o t eff m. leads o o t eff m (Memᴰ.head refl);
      }

-- The pass over single methods always ends without an exception. Its flows have pairwise different
-- ids, and each is a trigger (a route, a consumer or a scheduler) followed by at least one effect,
-- the steps numbered from one on. For each trigger of an indexed method and each other effect that
-- the method owns, or operation of the trigger's module within its lines, there is a flow of that
-- module from the trigger to the effect.
pub materialize_lem :
    (b : Sources) (facts : Facts)
    → (flows : List CodeFlow) × ((materialize_code_flows b facts ≡ some flows)
        × (Distinct (map (λ f. f.id) flows)
            × (((f : CodeFlow) → Memᴰ f flows → IsChain f)
                × ((path : Text) (o : Owned) (t : MessageEndpoint) (e : Effect)
                    → Memᴰ path (indexed_paths facts)
                    → Memᴰ o (owned_of_file b facts path)
                    → Memᴰ t o.endpoints
                    → is_trigger t ≡ true
                    → Reaches facts o t e
                    → (f : CodeFlow) × (Memᴰ f flows × Leads (module_of t) t e f)))))
unfolding materialize_code_flows finished_or
materialize_lem b facts =
    let (fs, (e, (chained, leads))) =
      gathered b facts (file_flows b facts) (owned_of_file b facts) (indexed_paths facts)
        (file_flows-Gives b facts) in
    let (r, (q, (ids, (every, _)))) = finished_lem b IsChain (IsChain-IsStable b) fs in
    (
      r,
      (
        ap (finished_or b) e ∙ q,
        (
          ids,
          (
            every chained,
            λ path o t eff m n k i reach.
                let (g, (at, l)) = leads path o t eff m n k i reach in
                let (r', (q', (_, (_, some_of)))) =
                  finished_lem b (Leads (module_of t) t eff) (Leads-IsStable b (module_of t) t eff)
                    fs in
                let (h, (there, l')) = some_of g at l in
                (h, (subst (Memᴰ h) (some_injective b facts (sym q' ∙ q)) there, l')),
          ),
        ),
      ),
    )
