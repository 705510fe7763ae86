-- ===== src/Graph/Messaging/Linked.antt =====
-- Which links the facts give (links_of of Messaging, domain/graph.py).
use mathlib.Core.List.Memᴰ
use mathlib.Core.Logic.{⊎_elim}
use systemlens.Prelude.{
  ◌≡◌, sym, subst, List, [], ◌∷◌, ◌++◌, foldl, Memᴰ, Distinct, inl, inr, ◌⊎◌, ◌↔◌,
}
use systemlens.Prelude.Dict.{keys, group}
use systemlens.Text.{Text, text_eq}
use systemlens.Models.Facts.{GraphFact}
use systemlens.Graph.Edges.Build.{Endpoints}
use systemlens.Graph.Messaging.{Links, service_names, joined, fact_step, links_of}
use systemlens.Graph.Messaging.Contributions.{Contribution, apply}
use systemlens.Graph.Messaging.Facts.{
  contribution, fact_step-apply, Direct, Publishes, Consumes, linking_iff, publishing_iff,
  consuming_iff,
}
use systemlens.Graph.Messaging.Joined.{
  Any, joined_iff, foldl_iff, apply-direct, apply-published, apply-consumed, apply-Distinct,
}

module _ (d : Endpoints) (facts : List GraphFact) where
  -- A link of the facts: one fact names both services and the channel, or one fact leads from the
  -- source to the channel and another one from the channel to the target.
  pub data IsLink (from to name : Text) : Type 0 where
    direct : (f : GraphFact) → Memᴰ f facts → Direct d f from to name → IsLink from to name
    through :
        (f g : GraphFact)
        → Memᴰ f facts
        → Memᴰ g facts
        → Publishes d f name from
        → Consumes d g name to
        → IsLink from to name

  abbrev start : Links
  start = record { direct = []; published = []; consumed = [] }

  abbrev done : Links
  done = foldl (fact_step (service_names d)) start facts

  stepwise :
      (Q : Links → Type 0) (P : GraphFact → Type 0) (c : Contribution)
      → ((t : Links) (k : Contribution) → Q (apply k t) ↔ (Q t ⊎ (k ≡ c)))
      → ((f : GraphFact) → (contribution (service_names d) f ≡ c) ↔ P f)
      → Q done ↔ (Q start ⊎ Any P facts)
  stepwise Q P c at means = foldl_iff (fact_step (service_names d)) Q P facts start (λ t f.
      subst (λ z. Q z ↔ (Q t ⊎ P f)) (sym (fact_step-apply (service_names d) t f))
        (let one = at t (contribution (service_names d) f) in
          (
            λ q. ⊎_elim inl (λ e. inr ((means f).0 e)) (one.0 q),
            ⊎_elim (λ q. one.1 (inl q)) (λ p. one.1 (inr ((means f).1 p))),
          )))

  once :
      (xs : List GraphFact) (t : Links)
      → Distinct (keys t.published)
      → Distinct (keys (foldl (fact_step (service_names d)) t xs).published)
  once [] t h = h
  once (f ∷ xs) t h = once xs (fact_step (service_names d) t f) (
      subst (λ z. Distinct (keys z.published)) (sym (fact_step-apply (service_names d) t f))
        (apply-Distinct (contribution (service_names d) f) t h))

  pub links_iff :
      (from to name : Text) → Memᴰ (from, (to, name)) (links_of facts d) ↔ IsLink from to name
  unfolding links_of group
  links_iff from to name =
      let whole =
        stepwise (λ t. Memᴰ (from, (to, name)) t.direct) (λ f. Direct d f from to name) _
          (λ t k. apply-direct k t (from, (to, name))) (λ f. linking_iff d f from to name) in
      let out =
        stepwise (λ t. Memᴰ from (group t.published name)) (λ f. Publishes d f name from) _
          (λ t k. apply-published k t name from) (λ f. publishing_iff d f name from) in
      let into =
        stepwise (λ t. Memᴰ to (group t.consumed name)) (λ f. Consumes d f name to) _
          (λ t k. apply-consumed k t name to) (λ f. consuming_iff d f name to) in
      let both = joined_iff done.published done.consumed from to name (once facts start tt) in
      (
        λ m.
            ⊎_elim
              (λ k. ⊎_elim (λ z. absurd (Memᴰ.not-nil z)) (λ (f, (n, p)). direct f n p) (whole.0 k))
              (λ k.
                let (p, q) = both.0 k in
                ⊎_elim (λ z. absurd (Memᴰ.not-nil z))
                  (λ (f, (n, a)).
                    ⊎_elim (λ z. absurd (Memᴰ.not-nil z)) (λ (g, (l, c)). through f g n l a c)
                      (into.0 q))
                  (out.0 p))
              (Memᴰ.append_cases done.direct m),
        back whole.1 both.1 out.1 into.1,
      )
    where
      back :
          (Memᴰ (from, (to, name)) start.direct ⊎ Any (λ f. Direct d f from to name) facts
            → Memᴰ (from, (to, name)) done.direct)
          → ((Memᴰ from (group done.published name) × Memᴰ to (group done.consumed name))
              → Memᴰ (from, (to, name)) (joined done.published done.consumed))
          → (Memᴰ from (group start.published name) ⊎ Any (λ f. Publishes d f name from) facts
              → Memᴰ from (group done.published name))
          → (Memᴰ to (group start.consumed name) ⊎ Any (λ f. Consumes d f name to) facts
              → Memᴰ to (group done.consumed name))
          → IsLink from to name
          → Memᴰ (from, (to, name)) (done.direct ++ joined done.published done.consumed)
      back whole both out into (direct f m p) = Memᴰ.append_left _ (whole (inr (f, (m, p))))
      back whole both out into (through f g m n a c) =
          Memᴰ.append_right done.direct (both (out (inr (f, (m, a))), into (inr (g, (n, c)))))
