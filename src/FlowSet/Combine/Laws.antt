-- ===== src/FlowSet/Combine/Laws.antt =====
-- What the merge of the two passes drops and keeps (indexing/code_flows.py).
use mathlib.Core.List.Memᴰ
use mathlib.Core.Logic.{⊎_elim}
use systemlens.Prelude.{
  ◌≡◌, refl, sym, ap, ◌∙◌, ◌≢◌, subst, ◌↔◌, ◌⊎◌, inl, inr, true, false, none, some, Option, List,
  [], ◌∷◌, ◌++◌, map, any, all, contains, contains_iff, all_at, all_of, Memᴰ, Memᴰ-append,
  Memᴰ-filter, Distinct, Bool-cases, pair_eq, arith,
}
use systemlens.Text.{Text, text_eq}
use systemlens.Models.{MessageEndpoint}
use systemlens.Models.UniqueIds.Laws.{Renamed, ensure_unique_total}
use systemlens.CodeFlows.{CodeFlow, CodeFlowStep}
use systemlens.CodeFlows.Internal.{EndpointsById, by_id}
use systemlens.FlowSet.Anchors.{FlowKey, anchor_steps, step_anchor, id_unless_anchored, flow_key}
use systemlens.FlowSet.Dedup.{is_method_call, deduplicate_code_flows}
use systemlens.FlowSet.Dedup.Laws.{deduplicate_lem}
use systemlens.FlowSet.Combine.{
  EffectAnchor, effect_eq, effect_anchor, effects_of, covered, is_kept, keeps_steps,
  without_same_method_duplicates, code_flow_ids, combine_code_flows,
}

-- A flow without a call whose effects all appear in flows of the other pass with its trigger.
pub record Held (source_flows : List CodeFlow) (flow : CodeFlow) : Type 0 where
  pub trigger : CodeFlowStep
  pub effects : List CodeFlowStep
  pub is_whole : flow.steps ≡ trigger ∷ effects
  pub no_call : any is_method_call flow.steps ≡ false
  pub in_source :
      (s : CodeFlowStep)
      → Memᴰ s effects
      → (g : CodeFlow) × (Memᴰ g source_flows
          × Memᴰ (step_anchor trigger, effect_anchor s) (effects_of g.steps))

covered_iff :
    (flows : List CodeFlow) (p : Text × EffectAnchor)
    → Memᴰ p (covered flows) ↔ ((g : CodeFlow) × (Memᴰ g flows × Memᴰ p (effects_of g.steps)))
unfolding covered
covered_iff [] p = (λ m. absurd (Memᴰ.not-nil m), λ (g, (m, _)). absurd (Memᴰ.not-nil m))
covered_iff (flow ∷ flows) p =
    let rest = covered_iff flows p in
    let split = Memᴰ-append p (effects_of flow.steps) (covered flows) in
    (
      λ m.
          ⊎_elim (λ n. (flow, (Memᴰ.head refl, n)))
            (λ n. let (g, (k, e)) = rest.0 n in (g, (Memᴰ.tail k, e))) (split.0 m),
      λ (g, (m, n)).
          split.1
            (⊎_elim (λ e. inl (rw e at n)) (λ k. inr (rest.1 (g, (k, n)))) (Memᴰ.cases_cons m)),
    )

effects_at :
    (s t : CodeFlowStep) (steps : List CodeFlowStep)
    → Memᴰ t steps
    → Memᴰ (step_anchor s, effect_anchor t) (effects_of (s ∷ steps))
unfolding effects_of
effects_at s t steps m = Memᴰ.map (λ (u : CodeFlowStep). (step_anchor s, effect_anchor u)) m

effects_from :
    (s : CodeFlowStep) (steps : List CodeFlowStep) (p : Text × EffectAnchor)
    → Memᴰ p (effects_of (s ∷ steps))
    → (t : CodeFlowStep) × (Memᴰ t steps × ((step_anchor s, effect_anchor t) ≡ p))
unfolding effects_of
effects_from s steps p m =
    let (t, n, q) = Memᴰ.of_map (λ (u : CodeFlowStep). (step_anchor s, effect_anchor u)) steps m in
    (t, (n, q))

cons_ne : (s : CodeFlowStep) (steps : List CodeFlowStep) → s ∷ steps ≢ []
cons_ne s steps q = cc

cons_injective :
    (s t : CodeFlowStep) (as' bs : List CodeFlowStep) → s ∷ as' ≡ t ∷ bs → (s ≡ t) × (as' ≡ bs)
cons_injective s t as' bs q = (cc, cc)

step_cases :
    (steps : List CodeFlowStep)
    → (steps ≡ []) ⊎ ((s : CodeFlowStep) × ((ss : List CodeFlowStep) × (steps ≡ s ∷ ss)))
step_cases [] = inl refl
step_cases (s ∷ ss) = inr (s, (ss, refl))

dropped_iff :
    (source_flows : List CodeFlow) (flow : CodeFlow)
    → (is_kept (covered source_flows) flow ≡ false) ↔ Held source_flows flow
unfolding is_kept keeps_steps
dropped_iff source_flows flow = elim (step_cases flow.steps) [
  | inl q ↦ (
    λ h. cc (ap (keeps_steps (covered source_flows)) q),
    λ held. absurd (cons_ne held.trigger held.effects (sym held.is_whole ∙ q)),
  )
  | inr (s, (ss, q)) ↦
      let held = covered source_flows in
      let test = ap (keeps_steps held) q in
      let calls = ap (any is_method_call) q in
      (
        λ h.
            let every : all (contains held) (effects_of (s ∷ ss)) ≡ true = ground arith in
            record {
              trigger = s;
              effects = ss;
              is_whole = q;
              no_call = ground arith;
              in_source = λ t m. (covered_iff source_flows (step_anchor s, effect_anchor t)).0 (
                  (contains_iff held (step_anchor s, effect_anchor t)).0
                    (all_at (contains held) _ (effects_of (s ∷ ss)) every (effects_at s t ss m)));
            },
        λ k.
            let (same_trigger, same_effects) =
              cons_injective s k.trigger ss k.effects (sym q ∙ k.is_whole) in
            let every : all (contains held) (effects_of (s ∷ ss)) ≡ true =
              all_of (contains held) (effects_of (s ∷ ss)) (λ p m.
                let (t, (n, e)) = effects_from s ss p m in
                (contains_iff held p).1 (
                  (covered_iff source_flows p).1
                    let (g, (gm, at)) = k.in_source t (subst (Memᴰ t) same_effects n) in
                      (
                        g,
                        (
                          gm,
                          Memᴰ.cast
                              (sym e ∙ ap (λ u. (step_anchor u, effect_anchor t)) same_trigger) at,
                        ),
                      ))) in
            test ∙ rw (sym calls ∙ k.no_call, every) refl,
      )
]

pub without_iff :
    (source_flows call_graph_flows : List CodeFlow) (flow : CodeFlow)
    → Memᴰ flow (without_same_method_duplicates source_flows call_graph_flows)
      ↔ (Memᴰ flow call_graph_flows × (¬ Held source_flows flow))
unfolding without_same_method_duplicates
without_iff source_flows call_graph_flows flow =
    let kept = Memᴰ-filter (is_kept (covered source_flows)) flow call_graph_flows in
    let dropped = dropped_iff source_flows flow in
    (
      λ m. ((kept.0 m).0, λ h. cc ((kept.0 m).1, dropped.1 h)),
      λ (m, n). kept.1 (
        m,
        elim (Bool-cases (is_kept (covered source_flows) flow)) [
          | inl t ↦ t
          | inr t ↦ absurd (n (dropped.0 t))
        ],
      ),
    )

-- A flow with a step that names an endpoint or a scheduler.
abbrev pub Anchored : CodeFlow → Type 0
Anchored flow = (s : CodeFlowStep) × ((ss : List CodeFlowStep) × (anchor_steps flow.steps ≡ s ∷ ss))

Anchored-iff :
    (d : EndpointsById) (flow : CodeFlow) → ((flow_key d flow).own_id ≡ none) ↔ Anchored flow
unfolding flow_key id_unless_anchored
Anchored-iff d flow = elim (step_cases (anchor_steps flow.steps)) [
  | inl q ↦ (
    λ h. cc (ap (id_unless_anchored flow.id) q),
    λ (s, (ss, r)). absurd (cons_ne s ss (sym r ∙ q)),
  )
  | inr (s, (ss, q)) ↦ (λ h. (s, (ss, q)), λ _. ap (id_unless_anchored flow.id) q)
]

-- A new id leaves the key of an anchored flow as it is.
key_with_id :
    (d : EndpointsById) (flow : CodeFlow) (id : Text)
    → Anchored flow
    → flow_key d (record flow { id = id }) ≡ flow_key d flow
unfolding flow_key id_unless_anchored
key_with_id d flow id (s, (ss, q)) =
    ap (λ (o : Option Text). record (flow_key d flow) { own_id = o })
      (ap (id_unless_anchored id) q ∙ sym (ap (id_unless_anchored flow.id) q))

Renamed-Memᴰ :
    (digest : CodeFlow → Text) (d : EndpointsById) (flow : CodeFlow) (flows renamed : List CodeFlow)
    → Renamed (code_flow_ids digest) flows renamed
    → Memᴰ flow flows
    → Anchored flow
    → (r : CodeFlow) × (Memᴰ r renamed × (flow_key d r ≡ flow_key d flow))
unfolding code_flow_ids
Renamed-Memᴰ digest d flow [] rs h m a = absurd (Memᴰ.not-nil m)
Renamed-Memᴰ digest d flow (f ∷ fs) [] h m a = absurd h
Renamed-Memᴰ digest d flow (f ∷ fs) (r ∷ rs) (here, later) m a =
    ⊎_elim
      (λ e. (
        r,
        (
          Memᴰ.head refl,
          ⊎_elim (λ q. ap (flow_key d) (q ∙ sym e))
              (λ (t, q).
                ap (flow_key d) (q ∙ ap (λ (g : CodeFlow). record g { id = t }) (sym e))
                ∙ key_with_id d flow t a)
              here,
        ),
      ))
      (λ n. let (s, (k, q)) = Renamed-Memᴰ digest d flow fs rs later n a in (s, (Memᴰ.tail k, q)))
      (Memᴰ.cases_cons m)

-- The merge of the two passes always ends, with flows of pairwise different ids. Every flow of the
-- source pass, and every flow of the call graph that no source flows hold, has a merged flow of
-- the same ends, data step and status, if one of its steps names an endpoint or a scheduler.
pub combine_lem :
    (digest : CodeFlow → Text) (repr : FlowKey → Text)
    (source_flows call_graph_flows : List CodeFlow) (endpoints : List MessageEndpoint)
    → (merged : List CodeFlow) × ((combine_code_flows digest repr source_flows call_graph_flows
            endpoints
          ≡ some merged)
        × (Distinct (map (λ f. f.id) merged)
            × ((flow : CodeFlow)
                → Memᴰ flow source_flows ⊎ (Memᴰ flow call_graph_flows × (¬ Held source_flows flow))
                → Anchored flow
                → (r : CodeFlow) × (Memᴰ r merged
                    × (flow_key (by_id [] endpoints) r ≡ flow_key (by_id [] endpoints) flow)))))
unfolding combine_code_flows
combine_lem digest repr source_flows call_graph_flows endpoints =
    let d = by_id [] endpoints in
    let kept = without_same_method_duplicates source_flows call_graph_flows in
    let (r, (e, (same, ids))) =
      ensure_unique_total (code_flow_ids digest)
        (deduplicate_code_flows repr d (source_flows ++ kept)) in
    (
      r,
      (
        e,
        (
          ids,
          λ flow m a.
              let all_of_it =
                (Memᴰ-append flow source_flows kept).1 (
                  ⊎_elim inl (λ k. inr ((without_iff source_flows call_graph_flows flow).1 k)) m) in
              let (f, (n, q)) =
                (deduplicate_lem repr d (source_flows ++ kept)).1.0 flow all_of_it in
              let anchored =
                (Anchored-iff d f).0
                  (ap (λ (k : FlowKey). k.own_id) q ∙ (Anchored-iff d flow).1 a) in
              let (s, (k, p)) = Renamed-Memᴰ digest d f _ r same n anchored in (s, (k, p ∙ q)),
        ),
      ),
    )
