-- ===== src/CodeFlows/Tree/Laws.antt =====
-- Which flows are the children of a flow (application/code_flows.py).
use mathlib.Core.List.Memᴰ
use mathlib.Core.Logic.{⊎_elim}
use systemlens.Prelude.{
  ◌≡◌, ◌≢◌, refl, sym, subst, true, some, List, [], ◌∷◌, ◌==◌, filter, Memᴰ, Memᴰ-filter,
  Bool-cases, Option-cases, inl, inr, ◌⊎◌, arith, pair_eq, ==_iff,
}
use systemlens.Prelude.Dict.{Dict, put, push, group, group-push, values}
use systemlens.Text.{Text, text_eq, text_beq, text_beq_iff}
use systemlens.Text.Order.{Memᴰ-sort}
use systemlens.Models.{MessageEndpoint}
use systemlens.CodeFlows.{CodeFlow}
use systemlens.CodeFlows.Internal.{EndpointsById}
use systemlens.CodeFlows.Tree.{
  FlowIndex, entry_endpoint, build_flow_index, output_endpoints, target_role, starts_at, continues,
  keep_children, candidates_of, flow_leb, flow_children,
}

-- The flow starts at an indexed endpoint of a system and topic.
abbrev pub StartsAt : EndpointsById → Text × Text → CodeFlow → Type 0
StartsAt d key flow =
    (e : MessageEndpoint) × ((entry_endpoint d flow.steps ≡ some e) × ((e.system, e.topic) ≡ key))

Memᴰ-put :
    (d : Dict Text CodeFlow) (k : Text) (v c : CodeFlow)
    → Memᴰ c (values (put d k v))
    → (c ≡ v) ⊎ Memᴰ c (values d)
unfolding put
Memᴰ-put [] k v c m = inl (Memᴰ.eq_of_singleton m)
Memᴰ-put ((j, w) ∷ d) k v c m = elim (Bool-cases (text_beq j k)) [
  | inl t ↦
      ⊎_elim inl (λ n. inr (Memᴰ.tail n))
        (Memᴰ.cases_cons {a = c} {b = v} {l = values d} (rw t at m))
  | inr t ↦
      ⊎_elim (λ q. inr (Memᴰ.head q))
        (λ n. ⊎_elim inl (λ k'. inr (Memᴰ.tail k')) (Memᴰ-put d k v c n))
        (Memᴰ.cases_cons {a = c} {b = w} {l = values (put d k v)} (rw t at m))
]

keep_children-Memᴰ :
    (d : Dict Text CodeFlow) (cs : List CodeFlow) (c : CodeFlow)
    → Memᴰ c (values (keep_children d cs))
    → Memᴰ c (values d) ⊎ Memᴰ c cs
unfolding keep_children
keep_children-Memᴰ d [] c m = inl m
keep_children-Memᴰ d (x ∷ cs) c m =
    ⊎_elim (λ n. ⊎_elim (λ q. inr (Memᴰ.head q)) inl (Memᴰ-put d x.id x c n))
      (λ n. inr (Memᴰ.tail n)) (keep_children-Memᴰ (put d x.id x) cs c m)

index_sound :
    (d : EndpointsById) (index : FlowIndex) (flows : List CodeFlow) (key : Text × Text)
    (c : CodeFlow)
    → Memᴰ c (group (build_flow_index d index flows) key)
    → Memᴰ c (group index key) ⊎ (Memᴰ c flows × StartsAt d key c)
unfolding build_flow_index
index_sound d index [] key c m = inl m
index_sound d index (x ∷ flows) key c m = elim (Option-cases (entry_endpoint d x.steps)) [
  | inl e ↦
      ⊎_elim inl (λ (n, s). inr (Memᴰ.tail n, s))
        (index_sound d index flows key c (rw (e, build_flow_index) at m))
  | inr (p, e) ↦
      let k : Text × Text = (p.system, p.topic) in
      ⊎_elim
        (λ (n : Memᴰ c (group (push index k x) key)). elim (Bool-cases (k == key)) [
          | inl t ↦
              ⊎_elim inl
                (λ one.
                  let same : c ≡ x = Memᴰ.eq_of_singleton one in
                  inr (
                    Memᴰ.head same,
                    subst (StartsAt d key) (sym same) (p, (e, (==_iff k key).0 t)),
                  ))
                (Memᴰ.append_cases (group index key) (rw (group-push index k key x, t) at n))
          | inr t ↦ inl (rw (group-push index k key x, t) at n)
        ])
        (λ (n, s). inr (Memᴰ.tail n, s))
        (index_sound d (push index k x) flows key c (rw (e, build_flow_index) at m))
]

-- What makes a flow a child of another one through one of its outputs.
pub record Continues (d : EndpointsById) (flows : List CodeFlow) (flow child : CodeFlow)
    : Type 0 where
  pub listed : Memᴰ child flows
  pub other : child.id ≢ flow.id
  pub output : MessageEndpoint
  pub is_output : Memᴰ output (output_endpoints d flow)
  pub starts : StartsAt d (output.system, output.topic) child
  pub role : starts_at d (target_role output.role) child.steps ≡ true

candidates_sound :
    (d : EndpointsById) (flows : List CodeFlow) (flow : CodeFlow) (outputs : List MessageEndpoint)
    (c : CodeFlow)
    → Memᴰ c (candidates_of d (build_flow_index d [] flows) flow outputs)
    → ((o : MessageEndpoint) → Memᴰ o outputs → Memᴰ o (output_endpoints d flow))
    → Continues d flows flow c
unfolding candidates_of continues group
candidates_sound d flows flow [] c m h = absurd (Memᴰ.not-nil m)
candidates_sound d flows flow (o ∷ outputs) c m h =
    let index = build_flow_index d [] flows in
    let found = filter (continues d flow o) (group index (o.system, o.topic)) in
    ⊎_elim
      (λ (n : Memᴰ c found).
        let (k, t) = (Memᴰ-filter (continues d flow o) c (group index (o.system, o.topic))).0 n in
        ⊎_elim (λ z. absurd (Memᴰ.not-nil z))
          (λ (l, s). record {
            listed = l;
            other = λ q. ground (arith, (text_beq_iff c.id flow.id).1 q);
            output = o;
            is_output = h o (Memᴰ.head refl);
            starts = s;
            role = ground arith;
          })
          (index_sound d [] flows (o.system, o.topic) c k))
      (λ n. candidates_sound d flows flow outputs c n (λ x k. h x (Memᴰ.tail k)))
      (Memᴰ.append_cases found m)

-- Every child of a flow is another one of the flows that starts at an indexed endpoint of the system
-- and topic of an output of the flow, in the role that answers this output.
pub children_sound :
    (d : EndpointsById) (flows : List CodeFlow) (flow child : CodeFlow)
    → Memᴰ child (flow_children d (build_flow_index d [] flows) flow)
    → Continues d flows flow child
unfolding flow_children
children_sound d flows flow child m =
    let index = build_flow_index d [] flows in
    let found = candidates_of d index flow (output_endpoints d flow) in
    ⊎_elim (λ z. absurd (Memᴰ.not-nil z))
      (λ n. candidates_sound d flows flow (output_endpoints d flow) child n (λ o k. k))
      (keep_children-Memᴰ [] found child
        ((Memᴰ-sort flow_leb child (values (keep_children [] found))).0 m))
