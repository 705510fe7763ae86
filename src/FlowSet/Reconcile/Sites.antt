-- ===== src/FlowSet/Reconcile/Sites.antt =====
-- The topology's edges that the reconciliation looks up, as plain selections of all edges
-- (indexing/code_flows.py).
use systemlens.Prelude.{
  ◌≡◌, refl, ap, ◌∙◌, inl, inr, Bool, ◌&&◌, Option, none, some, List, [], ◌∷◌, filter, map, ◌==◌,
  arith, Bool-cases, Option-cases, option_eq, option_beq, pair_eq,
}
use systemlens.Prelude.Groups.{group-group_all_new}
use systemlens.Prelude.Dict.{group}
use systemlens.Text.{Text, text_eq, text_beq}
use systemlens.Models.{MessageEndpoint}
use systemlens.Graph.Edges.{GraphEdge}
use systemlens.FlowSet.Reconcile.{
  outgoing, incoming, with_target, target_id, id_or_none, continuation, matching_outgoing,
  matching_incoming,
}

-- The edges from an endpoint, to the next one of the flow if that is an input.
abbrev pub leads : MessageEndpoint → Option MessageEndpoint → GraphEdge → Bool
leads e none edge = edge.from_endpoint.id == e.id
leads e (some n) edge = edge.from_endpoint.id == e.id && target_id edge == some n.id

abbrev pub departures : List GraphEdge → MessageEndpoint → Option MessageEndpoint → List GraphEdge
departures edges e following = filter (leads e (continuation following)) edges

abbrev pub arrives : MessageEndpoint → MessageEndpoint → GraphEdge → Bool
arrives previous e edge = target_id edge == some e.id && edge.from_endpoint.id == previous.id

abbrev pub arrivals : List GraphEdge → MessageEndpoint → MessageEndpoint → List GraphEdge
arrivals edges previous e = filter (arrives previous e) edges

map_id {ℓ} : {A : Type ℓ} (xs : List A) → map (λ (x : A). x) xs ≡ xs
map_id [] = refl
map_id (x ∷ xs) = cc (map_id xs)

filter-filter {ℓ} :
    {A : Type ℓ} (p q : A → Bool) (xs : List A)
    → filter q (filter p xs) ≡ filter (λ x. p x && q x) xs
unfolding filter
filter-filter p q [] = refl
filter-filter p q (x ∷ xs) = elim (Bool-cases (p x)) [
  | inl t ↦ ground (arith, filter-filter p q xs)
  | inr t ↦ ground (arith, filter-filter p q xs)
]

pub outgoing-departures :
    (edges : List GraphEdge) (e : MessageEndpoint) (next : Option MessageEndpoint)
    → matching_outgoing edges e (continuation next) ≡ departures edges e next
unfolding matching_outgoing outgoing
outgoing-departures edges e next = go (continuation next)
  where
    all_from : group (outgoing edges) e.id ≡ filter (λ edge. edge.from_endpoint.id == e.id) edges
    all_from =
        group-group_all_new (λ (g : GraphEdge). g.from_endpoint.id) (λ g. g) edges e.id ∙ map_id _

    go : (c : Option MessageEndpoint) → matching_outgoing edges e c ≡ filter (leads e c) edges
    go none = all_from
    go (some n) =
        ap (filter (λ g. target_id g == some n.id)) all_from
        ∙ filter-filter (λ g. g.from_endpoint.id == e.id) (λ g. target_id g == some n.id) edges

target_id-none : (g : GraphEdge) → g.to_endpoint ≡ none → target_id g ≡ none
unfolding target_id id_or_none
target_id-none g q = ap id_or_none q

target_id-some :
    (g : GraphEdge) (t : MessageEndpoint) → g.to_endpoint ≡ some t → target_id g ≡ some t.id
unfolding target_id id_or_none
target_id-some g t q = ap id_or_none q

targets_at :
    (edges : List GraphEdge) (id : Text)
    → map (λ p. p.1) (filter (λ (p : Text × GraphEdge). p.0 == id) (with_target edges))
      ≡ filter (λ edge. target_id edge == some id) edges
unfolding with_target filter option_beq
targets_at [] id = refl
targets_at (g ∷ edges) id = elim (Option-cases g.to_endpoint) [
  | inl q ↦ simp (q, target_id-none g q) (targets_at edges id)
  | inr (t, q) ↦ elim (Bool-cases (text_beq t.id id)) [
    | inl b ↦
        simp (q, target_id-some g t q, b) (ap (λ (r : List GraphEdge). g ∷ r) (targets_at edges id))
    | inr b ↦ simp (q, target_id-some g t q, b) (targets_at edges id)
  ]
]

pub incoming-arrivals :
    (edges : List GraphEdge) (p e : MessageEndpoint)
    → matching_incoming edges p e ≡ arrivals edges p e
unfolding matching_incoming incoming
incoming-arrivals edges p e =
    ap (filter (λ g. g.from_endpoint.id == p.id)) (
      group-group_all_new (λ (q : Text × GraphEdge). q.0) (λ q. q.1) (with_target edges) e.id
      ∙ targets_at edges e.id)
    ∙ filter-filter (λ g. target_id g == some e.id) (λ g. g.from_endpoint.id == p.id) edges
