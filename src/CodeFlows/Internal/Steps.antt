-- ===== src/CodeFlows/Internal/Steps.antt =====
-- The flows inside one module, by the steps of the flow (application/code_flows.py).
use mathlib.Core.List.Memᴰ
use mathlib.Core.Logic.{⊎_elim}
use systemlens.Prelude.{
  ◌≡◌, ◌≢◌, refl, sym, ap, ◌∙◌, subst, none, some, List, [], ◌∷◌, Memᴰ, Option-cases, inl, inr, ◌↔◌,
  option_eq,
}
use systemlens.Prelude.Dict.{get}
use systemlens.Text.{Text, text_eq}
use systemlens.Models.{MessageEndpoint}
use systemlens.CodeFlows.{CodeFlowStep}
use systemlens.CodeFlows.Internal.{EndpointsById, step_endpoint, endpoint_steps}

-- The step names the indexed endpoint.
pub record Names (d : EndpointsById) (s : CodeFlowStep) (e : MessageEndpoint) : Type 0 where
  pub id : Text
  pub given : s.endpoint_id ≡ some id
  pub shown : id ≢ []
  pub found : get d id ≡ some e

pub Names-iff :
    (d : EndpointsById) (s : CodeFlowStep) (e : MessageEndpoint)
    → (step_endpoint d s.endpoint_id ≡ some e) ↔ Names d s e
unfolding step_endpoint
Names-iff d s e = elim (Option-cases s.endpoint_id) [
  | inl q ↦ (λ h. cc (rw q at h), λ n. cc (q, n.given))
  | inr (id, q) ↦ of_id id q
]
  where
    of_id :
        (id : Text)
        → s.endpoint_id ≡ some id
        → (step_endpoint d s.endpoint_id ≡ some e) ↔ Names d s e
    of_id [] q = (λ h. cc (rw q at h), λ n. absurd (n.shown (cc (q, n.given))))
    of_id (c ∷ t) q = (
      λ h. record { id = c ∷ t; given = q; shown = λ r. cc; found = rw q at h },
      λ n.
          let same : n.id ≡ c ∷ t = cc (q, n.given) in
          rw q (subst (λ z. get d z ≡ some e) same n.found),
    )

-- The first step that names an indexed endpoint names this one.
pub data First (d : EndpointsById) (e : MessageEndpoint) : List CodeFlowStep → Type 0 where
  here : {s : CodeFlowStep} {steps : List CodeFlowStep} → Names d s e → First d e (s ∷ steps)
  later :
      {s : CodeFlowStep} {steps : List CodeFlowStep}
      → ((x : MessageEndpoint) → Names d s x → ⊥)
      → First d e steps
      → First d e (s ∷ steps)

-- The last step that names an indexed endpoint names this one.
pub data Last (d : EndpointsById) (e : MessageEndpoint) : List CodeFlowStep → Type 0 where
  here :
      {s : CodeFlowStep} {steps : List CodeFlowStep}
      → Names d s e
      → ((t : CodeFlowStep) (x : MessageEndpoint) → Memᴰ t steps → Names d t x → ⊥)
      → Last d e (s ∷ steps)
  later : {s : CodeFlowStep} {steps : List CodeFlowStep} → Last d e steps → Last d e (s ∷ steps)

pub steps_iff :
    (d : EndpointsById) (steps : List CodeFlowStep) (e : MessageEndpoint)
    → Memᴰ e (endpoint_steps d steps) ↔ ((s : CodeFlowStep) × (Memᴰ s steps × Names d s e))
unfolding endpoint_steps
steps_iff d [] e = (λ m. absurd (Memᴰ.not-nil m), λ (s, (m, n)). absurd (Memᴰ.not-nil m))
steps_iff d (s ∷ steps) e = elim (Option-cases (step_endpoint d s.endpoint_id)) [
  | inl q ↦
      rw (q, endpoint_steps)
        (
          λ m. let (t, (k, n)) = (steps_iff d steps e).0 m in (t, (Memᴰ.tail k, n)),
          λ (t, (k, n)).
              ⊎_elim (λ same. cc (q, (Names-iff d s e).1 (subst (λ z. Names d z e) same n)))
                (λ l. (steps_iff d steps e).1 (t, (l, n))) (Memᴰ.cases_cons k),
        )
  | inr (x, q) ↦
      rw (q, endpoint_steps)
        (
          λ m.
              ⊎_elim (λ same. (s, (Memᴰ.head refl, (Names-iff d s e).0 (q ∙ ap some (sym same)))))
                (λ l. let (t, (k, n)) = (steps_iff d steps e).0 l in (t, (Memᴰ.tail k, n)))
                (Memᴰ.cases_cons m),
          λ (t, (k, n)).
              ⊎_elim
                (λ same.
                  let named = (Names-iff d s e).1 (subst (λ z. Names d z e) same n) in
                  let one : e ≡ x = cc (q, named) in Memᴰ.head one)
                (λ l. Memᴰ.tail ((steps_iff d steps e).1 (t, (l, n)))) (Memᴰ.cases_cons k),
        )
]

pub unnamed :
    (d : EndpointsById) (s : CodeFlowStep)
    → step_endpoint d s.endpoint_id ≡ none
    → (x : MessageEndpoint) → Names d s x
    → ⊥
unnamed d s q x n = cc (q, (Names-iff d s x).1 n)

pub none_after :
    (d : EndpointsById) (steps : List CodeFlowStep)
    → ((t : CodeFlowStep) (x : MessageEndpoint) → Memᴰ t steps → Names d t x → ⊥)
    → endpoint_steps d steps ≡ []
none_after d steps h = go (endpoint_steps d steps) refl
  where
    go : (es : List MessageEndpoint) → endpoint_steps d steps ≡ es → es ≡ []
    go [] q = refl
    go (e ∷ es) q =
        let (t, (m, n)) = (steps_iff d steps e).0 (subst (Memᴰ e) (sym q) (Memᴰ.head refl)) in
        absurd (h t e m n)
