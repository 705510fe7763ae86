-- ===== src/CodeFlows/Internal/Exact.antt =====
-- Which flows are internal to a module (application/code_flows.py).
use systemlens.Prelude.{
  ◌≡◌, refl, sym, ap, ◌∙◌, subst, Bool, true, false, ◌&&◌, ◌||◌, none, some, List, [], ◌∷◌, ◌++◌,
  all, all_at, contains, contains_iff, Memᴰ, Bool-cases, inl, inr, ◌⊎◌, ◌↔◌, arith, option_eq,
  option_beq_iff, option_beq,
}
use systemlens.Text.{Text, text_eq, text_beq, text_beq_iff}
use systemlens.Models.{MessageEndpoint, produce, consume, serve, call}
use systemlens.CodeFlows.{CodeFlow, CodeFlowStep}
use systemlens.CodeFlows.Internal.{
  EndpointsById, data_step_kinds, endpoint_steps, is_input, is_output, last_or, last_kind,
  in_module_or_none, is_internal_module_flow,
}
use systemlens.CodeFlows.Internal.Steps.{Names, First, Last, steps_iff}
use systemlens.CodeFlows.Internal.Ends.{First-sound, First-complete, Last-sound, Last-complete}

-- The last step is no access to data.
abbrev EndsElsewhere : List CodeFlowStep → Type 0
EndsElsewhere steps =
    (before : List CodeFlowStep) (s : CodeFlowStep)
    → steps ≡ before ++ s ∷ []
    → ¬ Memᴰ s.kind data_step_kinds

kind_at_end :
    (before : List CodeFlowStep) (s : CodeFlowStep) → last_kind (before ++ s ∷ []) ≡ s.kind
unfolding last_kind last_or
kind_at_end [] s = refl
kind_at_end (b ∷ before) s = go b before
  where
    go : (x : CodeFlowStep) (xs : List CodeFlowStep) → (last_or x (xs ++ s ∷ [])).kind ≡ s.kind
    go x [] = refl
    go x (y ∷ xs) = go y xs

split_last :
    (x : CodeFlowStep) (xs : List CodeFlowStep)
    → (before : List CodeFlowStep) × (x ∷ xs ≡ before ++ last_or x xs ∷ [])
unfolding last_or
split_last x [] = ([], refl)
split_last x (y ∷ xs) =
    let (before, q) = split_last y xs in (x ∷ before, ap (λ (t : List CodeFlowStep). x ∷ t) q)

-- A flow from an input to an output of one module.
pub record InternalTo (flow : CodeFlow) (d : EndpointsById) (name : Text) : Type 0 where
  pub owned : flow.in_module ≡ name
  pub enters :
      (e : MessageEndpoint) × (First d e flow.steps × ((e.role ≡ serve) ⊎ (e.role ≡ consume)))
  pub leaves :
      (e : MessageEndpoint) × (Last d e flow.steps × ((e.role ≡ call) ⊎ (e.role ≡ produce)))
  pub ends : EndsElsewhere flow.steps
  pub stays :
      (s : CodeFlowStep) (e : MessageEndpoint)
      → Memᴰ s flow.steps
      → Names d s e
      → (e.in_module ≡ none) ⊎ (e.in_module ≡ some name)

role_of_test : (a b : Text) (r : Text) → (text_beq r a || text_beq r b) ≡ true → (r ≡ a) ⊎ (r ≡ b)
role_of_test a b r h = elim (Bool-cases (text_beq r a)) [
  | inl t ↦ inl ((text_beq_iff r a).0 t)
  | inr t ↦ inr ((text_beq_iff r b).0 (ground arith))
]

test_of_role : (a b : Text) (r : Text) → (r ≡ a) ⊎ (r ≡ b) → (text_beq r a || text_beq r b) ≡ true
test_of_role a b r h = ground (arith, h, text_beq_iff r a, text_beq_iff r b)

stays_iff :
    (name : Text) (e : MessageEndpoint)
    → (in_module_or_none name e ≡ true) ↔ ((e.in_module ≡ none) ⊎ (e.in_module ≡ some name))
unfolding in_module_or_none
stays_iff name e = (
  λ h. elim (Bool-cases (option_beq e.in_module none)) [
    | inl t ↦ inl ((option_beq_iff e.in_module none).0 t)
    | inr t ↦ inr ((option_beq_iff e.in_module (some name)).0 (ground arith))
  ],
  λ h. elim h [
    | inl q ↦ rw ((option_beq_iff e.in_module none).1 q) refl
    | inr q ↦ let t = (option_beq_iff e.in_module (some name)).1 q in ground (arith, t)
  ],
)

all_of :
    (p : MessageEndpoint → Bool) (es : List MessageEndpoint)
    → ((e : MessageEndpoint) → Memᴰ e es → p e ≡ true)
    → all p es ≡ true
unfolding all
all_of p [] h = refl
all_of p (e ∷ es) h = rw (h e (Memᴰ.head refl)) (all_of p es (λ x m. h x (Memᴰ.tail m)))

ends_iff :
    (s : CodeFlowStep) (steps : List CodeFlowStep)
    → (contains data_step_kinds (last_kind (s ∷ steps)) ≡ false) ↔ EndsElsewhere (s ∷ steps)
ends_iff s steps =
    let held = contains_iff data_step_kinds (last_kind (s ∷ steps)) in
    (
      λ h before t q m.
          let same : last_kind (s ∷ steps) ≡ t.kind = ap last_kind q ∙ kind_at_end before t in
          cc (h, held.1 (subst (λ z. Memᴰ z data_step_kinds) (sym same) m)),
      λ h. elim (Bool-cases (contains data_step_kinds (last_kind (s ∷ steps)))) [
        | inl t ↦
            let (before, q) = split_last s steps in
            let same = ap last_kind q ∙ kind_at_end before (last_or s steps) in
            absurd
              (h before (last_or s steps) q (subst (λ z. Memᴰ z data_step_kinds) same (held.0 t)))
        | inr t ↦ t
      ],
    )

no_steps : (d : EndpointsById) (e : MessageEndpoint) → First d e [] → ⊥
no_steps d e f = elim f [ ]

and_false {ℓ} : {A : Type ℓ} (b : Bool) → (b && false) ≡ true → A
and_false true h = cc
and_false false h = cc

-- A flow counts as internal to a module exactly if the module owns it, the first indexed endpoint
-- that its steps name is an input and the last one an output, its last step is no access to data,
-- and every indexed endpoint that a step names is of this module or of none.
pub internal_iff :
    (flow : CodeFlow) (d : EndpointsById) (name : Text)
    → (is_internal_module_flow flow d name ≡ true) ↔ InternalTo flow d name
unfolding is_internal_module_flow is_input is_output
internal_iff flow d name = go flow.steps refl (endpoint_steps d flow.steps) refl
  where
    go :
        (steps : List CodeFlowStep)
        → flow.steps ≡ steps
        → (es : List MessageEndpoint) → endpoint_steps d flow.steps ≡ es
        → (is_internal_module_flow flow d name ≡ true) ↔ InternalTo flow d name
    go steps p [] at = (
      λ h. and_false (text_beq flow.in_module name) (rw at at h),
      λ i.
          let (e, (f, r)) = i.enters in
          let (others, q) = First-complete d flow.steps e f in cc (at, q),
    )
    go [] p (first ∷ others) at =
        absurd
          (no_steps d first (subst (First d first) p (First-sound d flow.steps first others at)))
    go (s ∷ steps) p (first ∷ others) at =
        let ends =
          subst
            (λ (z : List CodeFlowStep).
              (contains data_step_kinds (last_kind z) ≡ false) ↔ EndsElsewhere z)
            (sym p) (ends_iff s steps) in
        (
          λ h.
              let test = rw at at h in
              record {
                owned = (text_beq_iff flow.in_module name).0 (ground arith);
                enters = (
                  first,
                  (
                    First-sound d flow.steps first others at,
                    role_of_test serve consume first.role (ground arith),
                  ),
                );
                leaves = (
                  last_or first others,
                  (
                    Last-sound d flow.steps first others at,
                    role_of_test call produce (last_or first others).role (ground arith),
                  ),
                );
                ends = ends.0 (ground arith);
                stays = λ t e m n. (stays_iff name e).0 (
                    all_at (in_module_or_none name) e (first ∷ others) (ground arith)
                      (subst (Memᴰ e) at ((steps_iff d flow.steps e).1 (t, (m, n)))));
              },
          λ i.
              let (e, (f, r)) = i.enters in
              let (rest, q) = First-complete d flow.steps e f in
              let same : e ≡ first = cc (at, q) in
              let (z, (l, t)) = i.leaves in
              let last = Last-complete d flow.steps z first others at l in
              let owned = (text_beq_iff flow.in_module name).1 i.owned in
              let enters =
                test_of_role serve consume first.role
                  (subst (λ (x : MessageEndpoint). (x.role ≡ serve) ⊎ (x.role ≡ consume)) same r) in
              let leaves = test_of_role call produce (last_or first others).role (
                subst (λ (x : MessageEndpoint). (x.role ≡ call) ⊎ (x.role ≡ produce)) (sym last)
                  t) in
              let elsewhere = ends.1 i.ends in
              let stays = all_of (in_module_or_none name) (first ∷ others) (λ x m.
                let (y, (k, n)) = (steps_iff d flow.steps x).0 (subst (Memᴰ x) (sym at) m) in
                (stays_iff name x).1 (i.stays y x k n)) in
              rw at (ground (arith, owned, enters, leaves, elsewhere, stays)),
        )
