-- ===== src/Graph/Messaging/Facts.antt =====
-- What one fact adds in the loop of graph_edges_from_facts (domain/graph.py).
use systemlens.Prelude.{
  ◌≡◌, refl, sym, ap, ◌∙◌, none, some, List, if◌then◌else◌, Bool-cases, Option-cases, inl, inr, ◌↔◌,
}
use systemlens.Text.{Text, text_eq}
use systemlens.Models.Facts.{GraphFact}
use systemlens.Graph.Edges.Build.{Endpoints}
use systemlens.Graph.Messaging.{
  Links, service_names, service_name, channel, accepted, channel_name, fact_step,
}
use systemlens.Graph.Messaging.Sides.{
  IsService, IsChannel, IsAccepted, service_iff, channel_iff, channel-service, accepted_iff,
}
use systemlens.Graph.Messaging.Contributions.{
  Contribution, apply, whole, whole_lem, whole-linking, linking-whole, whole-publishing,
  publishing-whole, whole-consuming, consuming-whole,
}

pub contribution : List Text → GraphFact → Contribution
contribution names fact = elim (channel fact) [
  | none ↦ Contribution.nothing
  | some name ↦
      if accepted fact
      then whole (service_name names fact.source_kind fact.source_name)
          (channel_name fact.source_kind fact.source_name)
          (service_name names fact.target_kind fact.target_name)
          (channel_name fact.target_kind fact.target_name) name
      else Contribution.nothing
]

pub fact_step-apply :
    (names : List Text) (links : Links) (fact : GraphFact)
    → fact_step names links fact ≡ apply (contribution names fact) links
unfolding fact_step contribution
fact_step-apply names links fact = elim (Option-cases (channel fact)) [
  | inl q ↦ rw (q, fact_step, contribution) (unfold apply in refl)
  | inr (name, q) ↦ elim (Bool-cases (accepted fact)) [
    | inl t ↦ rw (q, fact_step, contribution) (rw t (whole_lem _ _ _ _ name links))
    | inr t ↦ rw (q, fact_step, contribution) (rw t (unfold apply in refl))
  ]
]

module _ (d : Endpoints) where
  -- A fact that names both services, and the channel of it.
  pub record Direct (fact : GraphFact) (from to name : Text) : Type 0 where
    pub accepted : IsAccepted fact
    pub on : channel fact ≡ some name
    pub source : IsService d fact.source_kind fact.source_name from
    pub target : IsService d fact.target_kind fact.target_name to

  -- A fact from a service to a channel.
  pub record Publishes (fact : GraphFact) (name from : Text) : Type 0 where
    pub accepted : IsAccepted fact
    pub on : (n : Text) × (channel fact ≡ some n)
    pub source : IsService d fact.source_kind fact.source_name from
    pub target : IsChannel fact.target_kind fact.target_name name

  -- A fact from a channel to a service.
  pub record Consumes (fact : GraphFact) (name to : Text) : Type 0 where
    pub accepted : IsAccepted fact
    pub on : (n : Text) × (channel fact ≡ some n)
    pub source : IsChannel fact.source_kind fact.source_name name
    pub target : IsService d fact.target_kind fact.target_name to

  abbrev names : List Text
  names = service_names d

  abbrev sides : GraphFact → Text → Contribution
  sides fact name =
      whole (service_name names fact.source_kind fact.source_name)
        (channel_name fact.source_kind fact.source_name)
        (service_name names fact.target_kind fact.target_name)
        (channel_name fact.target_kind fact.target_name) name

  something :
      (fact : GraphFact) (c : Contribution)
      → (c ≡ Contribution.nothing → ⊥)
      → contribution names fact ≡ c
      → IsAccepted fact × ((n : Text) × ((channel fact ≡ some n) × (sides fact n ≡ c)))
  unfolding contribution
  something fact c n h = elim (Option-cases (channel fact)) [
    | inl q ↦ absurd (n (sym (rw (q, contribution) at h)))
    | inr (name, q) ↦ elim (Bool-cases (accepted fact)) [
      | inl t ↦ ((accepted_iff fact).0 t, (name, (q, rw t at (rw (q, contribution) at h))))
      | inr t ↦ absurd (n (sym (rw t at (rw (q, contribution) at h))))
    ]
  ]

  adds :
      (fact : GraphFact) (name : Text)
      → IsAccepted fact
      → channel fact ≡ some name
      → contribution names fact ≡ sides fact name
  unfolding contribution
  adds fact name a q = rw (q, (accepted_iff fact).1 a, contribution) refl

  pub linking_iff :
      (fact : GraphFact) (x y n : Text)
      → (contribution names fact ≡ Contribution.linking (x, (y, n))) ↔ Direct fact x y n
  linking_iff fact x y n = (
    λ h.
        let (a, (m, (q, w))) = something fact _ (λ e. cc) h in
        let (s, (t, same)) = whole-linking _ _ _ _ m x y n w in
        record {
          accepted = a;
          on = q ∙ ap some (sym same);
          source = (service_iff d fact.source_kind fact.source_name x).0 s;
          target = (service_iff d fact.target_kind fact.target_name y).0 t;
        },
    λ h.
        adds fact n h.accepted h.on
        ∙ linking-whole _ _ _ _ n x y
            ((service_iff d fact.source_kind fact.source_name x).1 h.source)
            ((service_iff d fact.target_kind fact.target_name y).1 h.target),
  )

  pub publishing_iff :
      (fact : GraphFact) (k v : Text)
      → (contribution names fact ≡ Contribution.publishing k v) ↔ Publishes fact k v
  publishing_iff fact k v = (
    λ h.
        let (a, (m, (q, w))) = something fact _ (λ e. cc) h in
        let (s, t) = whole-publishing _ _ _ _ m k v w in
        record {
          accepted = a;
          on = (m, q);
          source = (service_iff d fact.source_kind fact.source_name v).0 s;
          target = (channel_iff fact.target_kind fact.target_name k).0 t;
        },
    λ h.
        let (n, q) = h.on in
        adds fact n h.accepted q
        ∙ rw (channel-service names fact.target_kind fact.target_name k h.target) (
            publishing-whole _ _ _ n k v
              ((service_iff d fact.source_kind fact.source_name v).1 h.source)
              ((channel_iff fact.target_kind fact.target_name k).1 h.target)),
  )

  pub consuming_iff :
      (fact : GraphFact) (k v : Text)
      → (contribution names fact ≡ Contribution.consuming k v) ↔ Consumes fact k v
  consuming_iff fact k v = (
    λ h.
        let (a, (m, (q, w))) = something fact _ (λ e. cc) h in
        let (s, t) = whole-consuming _ _ _ _ m k v w in
        record {
          accepted = a;
          on = (m, q);
          source = (channel_iff fact.source_kind fact.source_name k).0 s;
          target = (service_iff d fact.target_kind fact.target_name v).0 t;
        },
    λ h.
        let (n, q) = h.on in
        adds fact n h.accepted q
        ∙ rw (channel-service names fact.source_kind fact.source_name k h.source) (
            consuming-whole _ _ _ n k v
              ((channel_iff fact.source_kind fact.source_name k).1 h.source)
              ((service_iff d fact.target_kind fact.target_name v).1 h.target)),
  )
