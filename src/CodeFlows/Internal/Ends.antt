-- ===== src/CodeFlows/Internal/Ends.antt =====
-- The first and the last endpoint that a flow names (application/code_flows.py).
use mathlib.Core.List.Memᴰ
use systemlens.Prelude.{
  ◌≡◌, refl, ap, ◌∙◌, subst, some, List, [], ◌∷◌, Memᴰ, Option-cases, inl, inr, option_eq,
}
use systemlens.Text.{text_eq}
use systemlens.Models.{MessageEndpoint}
use systemlens.CodeFlows.{CodeFlowStep}
use systemlens.CodeFlows.Internal.{EndpointsById, step_endpoint, endpoint_steps, last_or}
use systemlens.CodeFlows.Internal.Steps.{
  Names, First, First.here, First.later, Last, Last.here, Last.later, Names-iff, steps_iff, unnamed,
  none_after,
}

pub First-sound :
    (d : EndpointsById) (steps : List CodeFlowStep) (e : MessageEndpoint)
    (others : List MessageEndpoint)
    → endpoint_steps d steps ≡ e ∷ others
    → First d e steps
unfolding endpoint_steps
First-sound d [] e others h = cc
First-sound d (s ∷ steps) e others h = elim (Option-cases (step_endpoint d s.endpoint_id)) [
  | inl q ↦ First.later (unnamed d s q) (First-sound d steps e others (rw (q, endpoint_steps) at h))
  | inr (x, q) ↦
      let same : x ≡ e = cc (rw (q, endpoint_steps) at h) in
      First.here ((Names-iff d s e).0 (q ∙ ap some same))
]

pub First-complete :
    (d : EndpointsById) (steps : List CodeFlowStep) (e : MessageEndpoint)
    → First d e steps
    → (others : List MessageEndpoint) × (endpoint_steps d steps ≡ e ∷ others)
unfolding endpoint_steps
First-complete d [] e f = elim f [ ]
First-complete d (s ∷ steps) e (here n) =
    (endpoint_steps d steps, rw ((Names-iff d s e).1 n, endpoint_steps) refl)
First-complete d (s ∷ steps) e (later unnamed_here f) =
    let (others, q) = First-complete d steps e f in
    elim (Option-cases (step_endpoint d s.endpoint_id)) [
      | inl h ↦ (others, rw (h, endpoint_steps) q)
      | inr (x, h) ↦ absurd (unnamed_here x ((Names-iff d s x).0 h))
    ]

Last-of_named :
    (d : EndpointsById) (s : CodeFlowStep) (steps : List CodeFlowStep) (x f : MessageEndpoint)
    (others : List MessageEndpoint)
    → step_endpoint d s.endpoint_id ≡ some x
    → x ∷ endpoint_steps d steps ≡ f ∷ others
    → ((e : MessageEndpoint) (es : List MessageEndpoint)
        → endpoint_steps d steps ≡ e ∷ es
        → Last d (last_or e es) steps)
    → Last d (last_or f others) (s ∷ steps)
unfolding last_or
Last-of_named d s steps x f [] q p known =
    let same : x ≡ f = cc in
    let rest : endpoint_steps d steps ≡ [] = cc in
    Last.here ((Names-iff d s f).0 (q ∙ ap some same))
      (λ t y m n. Memᴰ.not-nil (subst (Memᴰ y) rest ((steps_iff d steps y).1 (t, (m, n)))))
Last-of_named d s steps x f (e ∷ es) q p known =
    let rest : endpoint_steps d steps ≡ e ∷ es = cc in Last.later (known e es rest)

pub Last-sound :
    (d : EndpointsById) (steps : List CodeFlowStep) (f : MessageEndpoint)
    (others : List MessageEndpoint)
    → endpoint_steps d steps ≡ f ∷ others
    → Last d (last_or f others) steps
unfolding endpoint_steps
Last-sound d [] f others h = cc
Last-sound d (s ∷ steps) f others h = elim (Option-cases (step_endpoint d s.endpoint_id)) [
  | inl q ↦ Last.later (Last-sound d steps f others (rw (q, endpoint_steps) at h))
  | inr (x, q) ↦
      Last-of_named d s steps x f others q (rw (q, endpoint_steps) at h)
        (λ e es r. Last-sound d steps e es r)
]

last_named :
    (d : EndpointsById) (steps : List CodeFlowStep) (e : MessageEndpoint)
    → Last d e steps
    → Memᴰ e (endpoint_steps d steps)
last_named d steps e l = (steps_iff d steps e).1 (go steps l)
  where
    go : (xs : List CodeFlowStep) → Last d e xs → (s : CodeFlowStep) × (Memᴰ s xs × Names d s e)
    go [] l = elim l [ ]
    go (s ∷ xs) (here n after) = (s, (Memᴰ.head refl, n))
    go (s ∷ xs) (later l) = let (t, (m, n)) = go xs l in (t, (Memᴰ.tail m, n))

named_of_last :
    (d : EndpointsById) (steps : List CodeFlowStep) (x e f : MessageEndpoint)
    (others : List MessageEndpoint)
    → x ∷ endpoint_steps d steps ≡ f ∷ others
    → Memᴰ e (endpoint_steps d steps)
    → ((g : MessageEndpoint) (es : List MessageEndpoint)
        → endpoint_steps d steps ≡ g ∷ es
        → last_or g es ≡ e)
    → last_or f others ≡ e
unfolding last_or
named_of_last d steps x e f [] p m known =
    let rest : endpoint_steps d steps ≡ [] = cc in absurd (Memᴰ.not-nil (subst (Memᴰ e) rest m))
named_of_last d steps x e f (g ∷ es) p m known =
    let rest : endpoint_steps d steps ≡ g ∷ es = cc in known g es rest

pub Last-complete :
    (d : EndpointsById) (steps : List CodeFlowStep) (e f : MessageEndpoint)
    (others : List MessageEndpoint)
    → endpoint_steps d steps ≡ f ∷ others
    → Last d e steps
    → last_or f others ≡ e
unfolding endpoint_steps last_or
Last-complete d [] e f others h l = elim l [ ]
Last-complete d (s ∷ steps) e f others h (here n after) =
    let q = (Names-iff d s e).1 n in
    let both : e ∷ endpoint_steps d steps ≡ f ∷ others = rw (q, endpoint_steps) at h in
    let rest : others ≡ [] = cc (both, none_after d steps after) in
    let same : f ≡ e = cc in rw rest same
Last-complete d (s ∷ steps) e f others h (later l) =
    elim (Option-cases (step_endpoint d s.endpoint_id)) [
      | inl q ↦ Last-complete d steps e f others (rw (q, endpoint_steps) at h) l
      | inr (x, q) ↦
          named_of_last d steps x e f others (rw (q, endpoint_steps) at h) (last_named d steps e l)
            (λ g es r. Last-complete d steps e g es r l)
    ]
