-- ===== src/Graph/Messaging/Joined.antt =====
-- The links that the facts give (links_of of Messaging, domain/graph.py): those of one fact, and
-- those of a publication and a consumption of one channel.
use mathlib.Core.List.Memᴰ
use mathlib.Core.Logic.{⊎_elim}
use systemlens.Prelude.{
  ◌≡◌, refl, sym, ap, subst, List, [], ◌∷◌, contains, contains_iff, foldl, Memᴰ, Distinct,
  Bool-cases, inl, inr, ◌⊎◌, ◌↔◌,
}
use systemlens.Prelude.Dict.{Dict, keys, group, group-push}
use systemlens.Prelude.Groups.{Distinct-push, item_of_group, group_of_item}
use systemlens.Text.{Text, text_eq, text_beq, text_beq_iff}
use systemlens.Models.Facts.{GraphFact}
use systemlens.Graph.Messaging.{Link, Links, add, pairs, joined_at, joined}
use systemlens.Graph.Messaging.Contributions.{
  Contribution, Contribution.linking, Contribution.publishing, Contribution.consuming,
  Contribution.nothing, apply,
}

add_iff :
    (d : Dict Text (List Text)) (k v j w : Text)
    → Memᴰ w (group (add d k v) j) ↔ (Memᴰ w (group d j) ⊎ ((k ≡ j) × (v ≡ w)))
unfolding add
add_iff d k v j w = elim (Bool-cases (contains (group d k) v)) [
  | inl t ↦ rw t (
    inl,
    ⊎_elim (λ m. m)
        (λ (p, q).
          subst (λ z. Memᴰ z (group d j)) q
            (subst (λ z. Memᴰ v (group d z)) p ((contains_iff (group d k) v).0 t))),
  )
  | inr t ↦ rw t (elim (Bool-cases (text_beq k j)) [
    | inl u ↦
        rw (group-push d k j v, u)
          (
            λ m.
                ⊎_elim inl (λ n. inr ((text_beq_iff k j).0 u, sym (Memᴰ.eq_of_singleton n)))
                  (Memᴰ.append_cases (group d j) m),
            ⊎_elim (λ m. Memᴰ.append_left (v ∷ []) m)
                (λ (p, q). Memᴰ.append_right (group d j) (Memᴰ.head (sym q))),
          )
    | inr u ↦
        rw (group-push d k j v, u) (inl, ⊎_elim (λ m. m) (λ (p, q). cc ((text_beq_iff k j).1 p)))
  ])
]

Distinct-add :
    (d : Dict Text (List Text)) (k v : Text) → Distinct (keys d) → Distinct (keys (add d k v))
unfolding add
Distinct-add d k v h = elim (Bool-cases (contains (group d k) v)) [
  | inl t ↦ rw t h
  | inr t ↦ rw t (Distinct-push d k v h)
]

pairs_iff :
    (name : Text) (targets : List Text) (source from to n : Text)
    → Memᴰ (from, (to, n)) (pairs name targets source)
      ↔ ((from ≡ source) × ((n ≡ name) × Memᴰ to targets))
unfolding pairs
pairs_iff name [] source from to n =
    (λ m. absurd (Memᴰ.not-nil m), λ (p, (q, m)). absurd (Memᴰ.not-nil m))
pairs_iff name (t ∷ targets) source from to n =
    let later = pairs_iff name targets source from to n in
    (
      λ m.
          ⊎_elim
            (λ q. (
              ap (λ (l : Link). l.0) q,
              (ap (λ (l : Link). l.1.1) q, Memᴰ.head (ap (λ (l : Link). l.1.0) q)),
            ))
            (λ k. let (p, (q, r)) = later.0 k in (p, (q, Memᴰ.tail r))) (Memᴰ.cases_cons m),
      λ (p, (q, m)).
          ⊎_elim (λ e. Memᴰ.head (cc (p, q, e))) (λ k. Memᴰ.tail (later.1 (p, (q, k))))
            (Memᴰ.cases_cons m),
    )

joined_at_iff :
    (name : Text) (sources targets : List Text) (from to n : Text)
    → Memᴰ (from, (to, n)) (joined_at name sources targets)
      ↔ ((n ≡ name) × (Memᴰ from sources × Memᴰ to targets))
unfolding joined_at
joined_at_iff name [] targets from to n =
    (λ m. absurd (Memᴰ.not-nil m), λ (p, (m, k)). absurd (Memᴰ.not-nil m))
joined_at_iff name (s ∷ sources) targets from to n =
    let here = pairs_iff name targets s from to n in
    let later = joined_at_iff name sources targets from to n in
    (
      λ m.
          ⊎_elim (λ k. let (p, (q, r)) = here.0 k in (q, (Memᴰ.head p, r)))
            (λ k. let (q, (p, r)) = later.0 k in (q, (Memᴰ.tail p, r)))
            (Memᴰ.append_cases (pairs name targets s) m),
      λ (q, (m, r)).
          ⊎_elim (λ p. Memᴰ.append_left (joined_at name sources targets) (here.1 (p, (q, r))))
            (λ k. Memᴰ.append_right (pairs name targets s) (later.1 (q, (k, r))))
            (Memᴰ.cases_cons m),
    )

joined_items_iff :
    (published consumed : Dict Text (List Text)) (from to n : Text)
    → Memᴰ (from, (to, n)) (joined published consumed)
      ↔ ((vs : List Text) × (Memᴰ (n, vs) published × (Memᴰ from vs × Memᴰ to (group consumed n))))
unfolding joined
joined_items_iff [] consumed from to n =
    (λ m. absurd (Memᴰ.not-nil m), λ (vs, (m, k)). absurd (Memᴰ.not-nil m))
joined_items_iff ((name, sources) ∷ published) consumed from to n =
    let here = joined_at_iff name sources (group consumed name) from to n in
    let later = joined_items_iff published consumed from to n in
    (
      λ m.
          ⊎_elim
            (λ k.
              let (q, (p, r)) = here.0 k in
              (
                sources,
                (
                  Memᴰ.head (ap (λ (z : Text). (z, sources)) q),
                  (p, subst (λ z. Memᴰ to (group consumed z)) (sym q) r),
                ),
              ))
            (λ k. let (vs, (q, r)) = later.0 k in (vs, (Memᴰ.tail q, r)))
            (Memᴰ.append_cases (joined_at name sources (group consumed name)) m),
      λ (vs, (m, (p, r))).
          ⊎_elim
            (λ e.
              let q : n ≡ name = ap (λ (z : Text × List Text). z.0) e in
              let w : vs ≡ sources = ap (λ (z : Text × List Text). z.1) e in
              Memᴰ.append_left (joined published consumed)
                (here.1 (q, (subst (Memᴰ from) w p, subst (λ z. Memᴰ to (group consumed z)) q r))))
            (λ k.
              Memᴰ.append_right (joined_at name sources (group consumed name))
                (later.1 (vs, (k, (p, r)))))
            (Memᴰ.cases_cons m),
    )

pub joined_iff :
    (published consumed : Dict Text (List Text)) (from to n : Text)
    → Distinct (keys published)
    → Memᴰ (from, (to, n)) (joined published consumed)
      ↔ (Memᴰ from (group published n) × Memᴰ to (group consumed n))
joined_iff published consumed from to n h =
    let items = joined_items_iff published consumed from to n in
    (
      λ m.
          let (vs, (k, (p, r))) = items.0 m in
          (subst (Memᴰ from) (sym (group_of_item published n vs h k)) p, r),
      λ (p, r). items.1 (group published n, (item_of_group published n from p, (p, r))),
    )

-- One of the facts has the property.
abbrev pub Any : (GraphFact → Type 0) → List GraphFact → Type 0
Any P facts = (f : GraphFact) × (Memᴰ f facts × P f)

pub foldl_iff :
    (step : Links → GraphFact → Links) (Q : Links → Type 0) (P : GraphFact → Type 0)
    (facts : List GraphFact) (links : Links)
    → ((t : Links) (f : GraphFact) → Q (step t f) ↔ (Q t ⊎ P f))
    → Q (foldl step links facts) ↔ (Q links ⊎ Any P facts)
foldl_iff step Q P [] links h = (inl, ⊎_elim (λ q. q) (λ (f, (m, p)). absurd (Memᴰ.not-nil m)))
foldl_iff step Q P (f ∷ facts) links h =
    let later = foldl_iff step Q P facts (step links f) h in
    (
      λ q.
          ⊎_elim (λ r. ⊎_elim inl (λ p. inr (f, (Memᴰ.head refl, p))) ((h links f).0 r))
            (λ (g, (m, p)). inr (g, (Memᴰ.tail m, p))) (later.0 q),
      ⊎_elim (λ q. later.1 (inl ((h links f).1 (inl q))))
          (λ (g, (m, p)).
            ⊎_elim (λ e. later.1 (inl ((h links f).1 (inr (subst P e p)))))
              (λ k. later.1 (inr (g, (k, p)))) (Memᴰ.cases_cons m)),
    )

pub apply-direct :
    (c : Contribution) (t : Links) (l : Link)
    → Memᴰ l (apply c t).direct ↔ (Memᴰ l t.direct ⊎ (c ≡ Contribution.linking l))
unfolding apply
apply-direct (linking k) t l = (
  λ m.
      ⊎_elim inl
        (λ n. inr (ap (λ (z : Link). Contribution.linking z) (sym (Memᴰ.eq_of_singleton n))))
        (Memᴰ.append_cases t.direct m),
  ⊎_elim (λ m. Memᴰ.append_left (k ∷ []) m)
      (λ q. Memᴰ.append_right t.direct (Memᴰ.head (sym (linked q)))),
)
  where
    linked : Contribution.linking k ≡ Contribution.linking l → k ≡ l
    linked q = cc
apply-direct (publishing k v) t l = (inl, ⊎_elim (λ m. m) (λ q. cc))
apply-direct (consuming k v) t l = (inl, ⊎_elim (λ m. m) (λ q. cc))
apply-direct nothing t l = (inl, ⊎_elim (λ m. m) (λ q. cc))

pub apply-published :
    (c : Contribution) (t : Links) (j w : Text)
    → Memᴰ w (group (apply c t).published j)
      ↔ (Memᴰ w (group t.published j) ⊎ (c ≡ Contribution.publishing j w))
unfolding apply
apply-published (linking k) t j w = (inl, ⊎_elim (λ m. m) (λ q. cc))
apply-published (publishing k v) t j w =
    let one = add_iff t.published k v j w in
    (
      λ m. ⊎_elim inl (λ (p, q). inr (cc (p, q))) (one.0 m),
      ⊎_elim (λ m. one.1 (inl m)) (λ q. one.1 (inr (cc, cc))),
    )
apply-published (consuming k v) t j w = (inl, ⊎_elim (λ m. m) (λ q. cc))
apply-published nothing t j w = (inl, ⊎_elim (λ m. m) (λ q. cc))

pub apply-consumed :
    (c : Contribution) (t : Links) (j w : Text)
    → Memᴰ w (group (apply c t).consumed j)
      ↔ (Memᴰ w (group t.consumed j) ⊎ (c ≡ Contribution.consuming j w))
unfolding apply
apply-consumed (linking k) t j w = (inl, ⊎_elim (λ m. m) (λ q. cc))
apply-consumed (publishing k v) t j w = (inl, ⊎_elim (λ m. m) (λ q. cc))
apply-consumed (consuming k v) t j w =
    let one = add_iff t.consumed k v j w in
    (
      λ m. ⊎_elim inl (λ (p, q). inr (cc (p, q))) (one.0 m),
      ⊎_elim (λ m. one.1 (inl m)) (λ q. one.1 (inr (cc, cc))),
    )
apply-consumed nothing t j w = (inl, ⊎_elim (λ m. m) (λ q. cc))

pub apply-Distinct :
    (c : Contribution) (t : Links)
    → Distinct (keys t.published)
    → Distinct (keys (apply c t).published)
unfolding apply
apply-Distinct (linking k) t h = h
apply-Distinct (publishing k v) t h = Distinct-add t.published k v h
apply-Distinct (consuming k v) t h = h
apply-Distinct nothing t h = h
