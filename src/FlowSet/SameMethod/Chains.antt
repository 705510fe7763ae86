-- ===== src/FlowSet/SameMethod/Chains.antt =====
-- The steps of a flow inside one method: a trigger and its effects, numbered in their order
-- (indexing/code_flows.py).
use mathlib.Core.List.Memᴰ
use mathlib.Core.Logic.{⊎_elim}
use systemlens.Prelude.{
  ℕ, suc, ◌≡◌, refl, sym, ap, ◌∙◌, subst, ◌⊎◌, inl, inr, Bool, true, false, Option, none, some,
  List, [], ◌∷◌, Memᴰ, contains, contains_iff, ◌==◌, pair_eq, arith,
}
use systemlens.Prelude.Dict.{get}
use systemlens.Text.{Text, text_eq, text_beq, codes}
use systemlens.Models.{MessageEndpoint, kafka, rest, produce, consume, serve, call}
use systemlens.CodeFlows.{CodeFlowStep, plain_step}
use systemlens.FlowSet.Anchors.{cron_entry}
use systemlens.FlowSet.Steps.{
  endpoint_step, step_kinds, scheduler_trigger, http_entry, message_entry, operation_step,
}
use systemlens.FlowSet.SameMethod.Nodes.{is_trigger, is_effect}
use systemlens.FlowSet.SameMethod.Effects.{Effect, effect_step, push_step, effect_steps}

abbrev pub IsEntry : Text → Type 0
IsEntry kind = (kind ≡ http_entry) ⊎ ((kind ≡ message_entry) ⊎ (kind ≡ cron_entry))

-- The steps count up from a number.
abbrev pub Numbered : ℕ → List CodeFlowStep → Type 0
Numbered n [] = Unit
Numbered n (s ∷ steps) = (s.order ≡ n) × Numbered (suc n) steps

-- The step that a known endpoint has.
pub record StepOf (e : MessageEndpoint) (order : ℕ) (kind : Text) : Type 0 where
  pub step : CodeFlowStep
  pub made : endpoint_step e order ≡ some step
  pub ordered : step.order ≡ order
  pub of_endpoint : step.endpoint_id ≡ some e.id
  pub kind_of : step.kind ≡ kind

step_of :
    (e : MessageEndpoint) (order : ℕ) (kind : Text)
    → ((e.system, e.role) == scheduler_trigger) ≡ false
    → get step_kinds (e.system, e.role) ≡ some kind
    → StepOf e order kind
unfolding endpoint_step
step_of e order kind h k = record {
  step = plain_step order kind e.topic e.path e.start_line e.end_line (some e.id);
  made = rw (h, k) refl;
  ordered = refl;
  of_endpoint = refl;
  kind_of = refl;
}

roles_of : (p q r : Text × Text) → contains (p ∷ q ∷ []) r ≡ true → (r ≡ p) ⊎ (r ≡ q)
roles_of p q r h =
    ⊎_elim inl (λ m. inr (Memᴰ.eq_of_singleton m))
      (Memᴰ.cases_cons ((contains_iff (p ∷ q ∷ []) r).0 h))

known_step :
    (e : MessageEndpoint) (order : ℕ) (p : Text × Text) (kind : Text)
    → (e.system, e.role) ≡ p
    → (p == scheduler_trigger) ≡ false
    → get step_kinds p ≡ some kind
    → StepOf e order kind
known_step e order p kind q h k =
    step_of e order kind (ap (λ (r : Text × Text). r == scheduler_trigger) q ∙ h)
      (ap (get step_kinds) q ∙ k)

effect_known :
    (e : MessageEndpoint) (order : ℕ) → is_effect e ≡ true → (k : Text) × StepOf e order k
unfolding is_effect get text_beq systemlens.Prelude.pair_beq
effect_known e order h =
    ⊎_elim
      (λ q. (codes "http_call", known_step e order (rest, call) (codes "http_call") q refl refl))
      (λ q. (
        codes "message_publish",
        known_step e order (kafka, produce) (codes "message_publish") q refl refl,
      ))
      (roles_of (rest, call) (kafka, produce) (e.system, e.role) h)

pub trigger_known :
    (e : MessageEndpoint) (order : ℕ)
    → is_trigger e ≡ true
    → (k : Text) × (StepOf e order k × IsEntry k)
unfolding is_trigger get text_beq systemlens.Prelude.pair_beq
trigger_known e order h =
    ⊎_elim (λ q. (http_entry, (known_step e order (rest, serve) http_entry q refl refl, inl refl)))
      (λ q. (
        message_entry,
        (known_step e order (kafka, consume) message_entry q refl refl, inr (inl refl)),
      ))
      (roles_of (rest, serve) (kafka, consume) (e.system, e.role) h)

-- An effect of a known kind.
abbrev pub Known : Effect → Type 0
Known (Effect.point e) = is_effect e ≡ true
Known (Effect.fact o) = Unit

abbrev pub Shows : Effect → CodeFlowStep → Type 0
Shows (Effect.point e) s = s.endpoint_id ≡ some e.id
Shows (Effect.fact o) s = s.operation_id ≡ some o.id

effect_step_total :
    (order : ℕ) (kind : Text) (e : Effect)
    → Known e
    → (s : CodeFlowStep) × ((effect_step order kind e ≡ some s) × ((s.order ≡ order) × Shows e s))
unfolding effect_step operation_step
effect_step_total order kind (Effect.point e) h =
    let (k, s) = effect_known e order h in (s.step, (s.made, (s.ordered, s.of_endpoint)))
effect_step_total order kind (Effect.fact o) h = (operation_step o order kind, (refl, (refl, refl)))

-- Known effects have steps, numbered in their order, and each effect has one of them.
pub effect_steps_total :
    (order : ℕ) (kind : Text) (es : List Effect)
    → ((e : Effect) → Memᴰ e es → Known e)
    → (steps : List CodeFlowStep) × ((effect_steps order kind es ≡ some steps)
        × (Numbered order steps
            × ((e : Effect) → Memᴰ e es → (s : CodeFlowStep) × (Memᴰ s steps × Shows e s))))
unfolding effect_steps push_step
effect_steps_total order kind [] h = ([], (refl, (tt, λ e m. absurd (Memᴰ.not-nil m))))
effect_steps_total order kind (e ∷ es) h =
    let (s, (q, (o, shows))) = effect_step_total order kind e (h e (Memᴰ.head refl)) in
    let (ss, (r, (n, all_shown))) =
      effect_steps_total (suc order) kind es (λ f m. h f (Memᴰ.tail m)) in
    (
      s ∷ ss,
      (
        rw (q, effect_steps) (rw r refl),
        (
          (o, n),
          λ f m.
              ⊎_elim (λ same. (s, (Memᴰ.head refl, subst (λ g. Shows g s) (sym same) shows)))
                (λ k. let (t, (at, sh)) = all_shown f k in (t, (Memᴰ.tail at, sh)))
                (Memᴰ.cases_cons m),
        ),
      ),
    )
