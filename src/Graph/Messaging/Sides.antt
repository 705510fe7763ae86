-- ===== src/Graph/Messaging/Sides.antt =====
-- The services, the channels and the status of a fact (domain/graph.py).
use mathlib.Core.List.Memᴰ
use mathlib.Core.Logic.{⊎_elim}
use systemlens.Prelude.{
  ◌≡◌, refl, sym, ap, subst, Bool, true, false, ◌&&◌, Option, none, some, List, [], ◌∷◌,
  if◌then◌else◌, contains, contains_iff, map, Memᴰ, Bool-cases, inl, inr, ◌⊎◌, ◌↔◌, ◌≢◌, arith,
}
use systemlens.Text.{Text, text_eq, text_beq, text_beq_iff, codes}
use systemlens.Models.Facts.{GraphFact}
use systemlens.Models.{MessageEndpoint}
use systemlens.Graph.Edges.Build.{Endpoints, all_endpoints}
use systemlens.Graph.Messaging.{
  service_names, one_of, service_name, is_channel, accepted, channel_name,
}

-- A name that Python takes as true.
abbrev pub Shown : Option Text → Text → Type 0
Shown o x = (o ≡ some x) × (x ≢ [])

service_names_iff :
    (d : Endpoints) (x : Text)
    → Memᴰ x (service_names d) ↔ ((e : MessageEndpoint) × Memᴰ (x, e) (all_endpoints d))
unfolding service_names all_endpoints
service_names_iff [] x = (λ m. absurd (Memᴰ.not-nil m), λ (e, m). absurd (Memᴰ.not-nil m))
service_names_iff ((service, []) ∷ d) x = service_names_iff d x
service_names_iff ((service, e ∷ es) ∷ d) x =
    let here = map (λ (y : MessageEndpoint). (service, y)) (e ∷ es) in
    let later = service_names_iff d x in
    (
      λ m.
          ⊎_elim (λ q. (e, Memᴰ.head (ap (λ (z : Text). (z, e)) q)))
            (λ n. let (y, k) = later.0 n in (y, Memᴰ.append_right here k)) (Memᴰ.cases_cons m),
      λ (y, m).
          ⊎_elim
            (λ n.
              let (z, k, q) = Memᴰ.of_map (λ (z : MessageEndpoint). (service, z)) (e ∷ es) n in
              Memᴰ.head (sym (ap (λ (p : Text × MessageEndpoint). p.0) q)))
            (λ n. Memᴰ.tail (later.1 (y, n))) (Memᴰ.append_cases here m),
    )

-- The side of a fact is an indexed service.
pub record IsService (d : Endpoints) (kind name : Option Text) (service : Text) : Type 0 where
  pub named : name ≡ some service
  pub shown : service ≢ []
  pub typed : (kind ≡ some (codes "service")) ⊎ (kind ≡ some (codes "microservice"))
  pub indexed : (e : MessageEndpoint) × Memᴰ (service, e) (all_endpoints d)

-- The side of a fact is a channel.
pub record IsChannel (kind name : Option Text) (topic : Text) : Type 0 where
  pub named : name ≡ some topic
  pub shown : topic ≢ []
  pub typed : (kind ≡ some (codes "topic")) ⊎ (kind ≡ some (codes "message_channel"))

one_of_iff :
    (kind : Option Text) (a b : Text)
    → (one_of kind (a ∷ b ∷ []) ≡ true) ↔ ((kind ≡ some a) ⊎ (kind ≡ some b))
unfolding one_of contains
one_of_iff none a b = (λ h. cc, λ h. elim h [ inl q ↦ cc | inr q ↦ cc ])
one_of_iff (some k) a b = (
  λ h. elim (Bool-cases (text_beq a k)) [
    | inl t ↦ inl (ap some (sym ((text_beq_iff a k).0 t)))
    | inr t ↦ inr (ap some (sym ((text_beq_iff b k).0 (ground arith))))
  ],
  λ h. elim h [
    | inl q ↦ let e : a ≡ k = cc in ground (arith, text_beq_iff a k)
    | inr q ↦ let e : b ≡ k = cc in ground (arith, text_beq_iff b k)
  ],
)

test_of :
    (b : Bool) (name x : Text) → (if b then some name else none) ≡ some x → (b ≡ true) × (name ≡ x)
test_of true name x h = (refl, cc)
test_of false name x h = cc

both_of : (p q : Bool) → (p && q) ≡ true → (p ≡ true) × (q ≡ true)
both_of p q h = ground arith

pub service_iff :
    (d : Endpoints) (kind name : Option Text) (x : Text)
    → Shown (service_name (service_names d) kind name) x ↔ IsService d kind name x
unfolding service_name
service_iff d kind none x = (λ (q, n). cc, λ h. cc h.named)
service_iff d kind (some name) x =
    let kinds = one_of_iff kind (codes "service") (codes "microservice") in
    let there = contains_iff (service_names d) name in
    (
      λ (h, n).
          let (both, q) =
            test_of
              (one_of kind (codes "service" ∷ codes "microservice" ∷ [])
                && contains (service_names d) name)
              name x h in
          let (k, c) =
            both_of (one_of kind (codes "service" ∷ codes "microservice" ∷ []))
              (contains (service_names d) name) both in
          record {
            named = ap some q;
            shown = n;
            typed = kinds.0 k;
            indexed =
                (service_names_iff d x).0 (subst (λ z. Memᴰ z (service_names d)) q (there.0 c));
          },
      λ h.
          let q : x ≡ name = cc (h.named) in
          let listed =
            there.1
              (subst (λ z. Memᴰ z (service_names d)) q ((service_names_iff d x).1 h.indexed)) in
          (rw (kinds.1 h.typed, listed) (ap some (sym q)), h.shown),
    )

pub channel_iff :
    (kind name : Option Text) (x : Text) → Shown (channel_name kind name) x ↔ IsChannel kind name x
unfolding channel_name is_channel
channel_iff kind name x =
    let kinds = one_of_iff kind (codes "topic") (codes "message_channel") in
    (
      λ (h, n). elim (Bool-cases (one_of kind (codes "topic" ∷ codes "message_channel" ∷ []))) [
        | inl t ↦ record { named = rw (t, channel_name) at h; shown = n; typed = kinds.0 t }
        | inr t ↦ cc (rw (t, channel_name) at h)
      ],
      λ h. (rw (kinds.1 h.typed, channel_name) h.named, h.shown),
    )

pub channel-service :
    (names : List Text) (kind name : Option Text) (x : Text)
    → IsChannel kind name x
    → service_name names kind name ≡ none
unfolding service_name one_of contains text_beq
channel-service names kind none x h = refl
channel-service names kind (some name) x h = elim h.typed [
  | inl q ↦ rw (q, one_of) refl
  | inr q ↦ rw (q, one_of) refl
]

-- A fact that the loop reads.
pub record IsAccepted (fact : GraphFact) : Type 0 where
  pub edge : fact.fact_type ≡ codes "edge"
  pub status : (fact.status ≡ codes "confirmed") ⊎ (fact.status ≡ codes "proposed")
  pub event : fact.kind ≡ codes "event"

pub accepted_iff : (fact : GraphFact) → (accepted fact ≡ true) ↔ IsAccepted fact
unfolding accepted
accepted_iff fact = (
  λ h. record {
    edge = ground (arith, text_beq_iff fact.fact_type (codes "edge"));
    status = ground (
      arith,
      text_beq_iff fact.status (codes "confirmed"),
      text_beq_iff fact.status (codes "proposed"),
    );
    event = ground (arith, text_beq_iff fact.kind (codes "event"));
  },
  λ a. ground (
    arith,
    a.edge,
    a.status,
    a.event,
    text_beq_iff fact.fact_type (codes "edge"),
    text_beq_iff fact.status (codes "confirmed"),
    text_beq_iff fact.status (codes "proposed"),
    text_beq_iff fact.kind (codes "event"),
  ),
)
