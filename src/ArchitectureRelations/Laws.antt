-- ===== src/ArchitectureRelations/Laws.antt =====
-- What the loops keep of the relations that they add (indexing/relations.py).
use mathlib.Core.List.Memᴰ
use mathlib.Core.Logic.{⊎_elim}
use systemlens.Prelude.{
  ◌≡◌, refl, sym, ap, ◌∙◌, subst, ◌⊎◌, inl, inr, Option, none, some, List, [], ◌∷◌, ◌++◌, length,
  Memᴰ, Distinct, Distinct-append, Bool-cases, Option-cases,
}
use systemlens.Prelude.Dict.{Dict, get, put, keys, values, get-mem}
use systemlens.Prelude.Groups.{values-Memᴰ}
use systemlens.Text.{Text, text_eq, text_beq, text_beq_iff}
use systemlens.Models.{ArchitectureRelation}
use systemlens.Models.UniqueIds.{free_id}
use systemlens.Models.UniqueIds.Laws.{free_id_total, free_id_free}
use systemlens.ArchitectureRelations.Adding.{
  Relations, relation_beq, same_of_beq, hashed_id, store_free, add_to, add, add_all,
}

-- A relation is another one, but for its id.
abbrev pub Copies : ArchitectureRelation → ArchitectureRelation → Type 0
Copies r s = s ≡ record r { id = s.id }

-- The relations stand under their own ids, each once.
pub record IsIndex (relations : Relations) : Type 0 where
  pub own : (k : Text) (r : ArchitectureRelation) → Memᴰ (k, r) relations → r.id ≡ k
  pub once : Distinct (keys relations)

pub get-none {ℓ} : {V : Type ℓ} (d : Dict Text V) (k : Text) → get d k ≡ none → ¬ Memᴰ k (keys d)
unfolding get
get-none [] k h m = Memᴰ.not-nil m
get-none ((j, r) ∷ d) k h m = elim (Bool-cases (text_beq j k)) [
  | inl t ↦ cc (rw t at h)
  | inr t ↦
      ⊎_elim (λ e. cc ((text_beq_iff j k).1 (sym e))) (get-none d k (rw t at h)) (Memᴰ.cases_cons m)
]

put_new :
    (d : Relations) (k : Text) (r : ArchitectureRelation)
    → (¬ Memᴰ k (keys d))
    → put d k r ≡ d ++ (k, r) ∷ []
unfolding put
put_new [] k r n = refl
put_new ((j, s) ∷ d) k r n = elim (Bool-cases (text_beq j k)) [
  | inl t ↦ absurd (n (Memᴰ.head (sym ((text_beq_iff j k).0 t))))
  | inr t ↦ rw t (ap (λ (x : Relations). (j, s) ∷ x) (put_new d k r (λ m. n (Memᴰ.tail m))))
]

put_same : (d : Relations) (k : Text) (r : ArchitectureRelation) → get d k ≡ some r → put d k r ≡ d
unfolding get put
put_same [] k r h = cc
put_same ((j, s) ∷ d) k r h = elim (Bool-cases (text_beq j k)) [
  | inl t ↦ rw t (ap (λ (x : ArchitectureRelation). (j, x) ∷ d) (sym (some_injective (rw t at h))))
  | inr t ↦ rw t (ap (λ (x : Relations). (j, s) ∷ x) (put_same d k r (rw t at h)))
]
  where
    some_injective : some s ≡ some r → s ≡ r
    some_injective q = cc

keys-append :
    (d : Relations) (k : Text) (r : ArchitectureRelation)
    → keys (d ++ (k, r) ∷ []) ≡ keys d ++ k ∷ []
keys-append [] k r = refl
keys-append ((j, s) ∷ d) k r = ap (λ (x : List Text). j ∷ x) (keys-append d k r)

values-append :
    (d : Relations) (k : Text) (r : ArchitectureRelation)
    → values (d ++ (k, r) ∷ []) ≡ values d ++ r ∷ []
values-append [] k r = refl
values-append ((j, s) ∷ d) k r = ap (λ (x : List ArchitectureRelation). s ∷ x) (values-append d k r)

-- What a round that adds `r` makes of the relations.
record Added (r : ArchitectureRelation) (relations : Relations) (result : Option Relations)
    : Type 0 where
  more : Relations
  made : result ≡ some more
  index : IsIndex more
  kept : (s : ArchitectureRelation) → Memᴰ s (values relations) → Memᴰ s (values more)
  stored : (s : ArchitectureRelation) × (Memᴰ s (values more) × Copies r s)
  from : (s : ArchitectureRelation) → Memᴰ s (values more) → Memᴰ s (values relations) ⊎ Copies r s

Added-new :
    (r : ArchitectureRelation) (relations : Relations) (k : Text)
    → IsIndex relations
    → (¬ Memᴰ k (keys relations))
    → Added r relations (some (put relations k (record r { id = k })))
Added-new r relations k h n =
    let new : ArchitectureRelation = record r { id = k } in
    let e = put_new relations k new n in
    let vs = ap values e ∙ values-append relations k new in
    record {
      more = put relations k new;
      made = refl;
      index = record {
        own = λ j s m.
            ⊎_elim (h.own j s)
              (λ one.
                let same = Memᴰ.eq_of_singleton one in
                ap (λ (p : Text × ArchitectureRelation). p.1.id) same
                ∙ sym (ap (λ (p : Text × ArchitectureRelation). p.0) same))
              (Memᴰ.append_cases relations (subst (Memᴰ (j, s)) e m));
        once =
            subst Distinct (sym (ap keys e ∙ keys-append relations k new))
              (Distinct-append (keys relations) k h.once n);
      };
      kept = λ s m. subst (Memᴰ s) (sym vs) (Memᴰ.append_left (new ∷ []) m);
      stored = (
        new,
        (subst (Memᴰ new) (sym vs) (Memᴰ.append_right (values relations) (Memᴰ.head refl)), refl),
      );
      from = λ s m.
          ⊎_elim inl
            (λ one.
              let same = Memᴰ.eq_of_singleton one in
              inr (
                same
                ∙ ap (λ (t : Text). record r { id = t })
                    (sym (ap (λ (x : ArchitectureRelation). x.id) same))))
            (Memᴰ.append_cases (values relations) (subst (Memᴰ s) vs m));
    }

Added-fresh :
    (digest : ArchitectureRelation → Text) (r : ArchitectureRelation) (relations : Relations)
    → IsIndex relations
    → Added r relations (
        store_free relations r (
          free_id
            (keys relations)
            (hashed_id digest r)
            (length (keys relations))
            2
            (hashed_id digest r)))
unfolding store_free
Added-fresh digest r relations h =
    let base = hashed_id digest r in
    let used = keys relations in
    elim (Option-cases (free_id used base (length used) 2 base)) [
      | inl stop ↦ absurd (free_id_total used base stop)
      | inr (k, found) ↦
          subst (λ o. Added r relations (store_free relations r o)) (sym found)
            (stored_at k (free_id_free used base (length used) 2 base k found))
    ]
  where
    stored_at :
        (k : Text)
        → (¬ Memᴰ k (keys relations))
        → Added r relations (store_free relations r (some k))
    stored_at k n = Added-new r relations k h n

Added-to :
    (digest : ArchitectureRelation → Text) (r : ArchitectureRelation) (relations : Relations)
    (existing : Option ArchitectureRelation)
    → IsIndex relations
    → get relations r.id ≡ existing
    → Added r relations (add_to digest relations r existing)
unfolding add_to
Added-to digest r relations none h q = Added-new r relations r.id h (get-none relations r.id q)
Added-to digest r relations (some old) h q = elim (Bool-cases (relation_beq old r)) [
  | inl t ↦
      let same : old ≡ r = same_of_beq old r t in
      let there : get relations r.id ≡ some r =
        q ∙ ap (λ (x : ArchitectureRelation). some x) same in
      rw (t, put_same relations r.id r there)
        (record {
          more = relations;
          made = refl;
          index = h;
          kept = λ s m. m;
          stored = (r, (values-Memᴰ relations r.id r (get-mem relations r.id r there), refl));
          from = λ s m. inl m;
        })
  | inr t ↦ rw t (Added-fresh digest r relations h)
]

-- What the loops make of the relations: an index that keeps what stood there, and has each added
-- relation, at most under another id.
pub record AddedAll (rs : List ArchitectureRelation) (relations more : Relations) : Type 0 where
  pub index : IsIndex more
  pub kept : (s : ArchitectureRelation) → Memᴰ s (values relations) → Memᴰ s (values more)
  pub stored :
      (r : ArchitectureRelation)
      → Memᴰ r rs
      → (s : ArchitectureRelation) × (Memᴰ s (values more) × Copies r s)
  pub from :
      (s : ArchitectureRelation)
      → Memᴰ s (values more)
      → Memᴰ s (values relations) ⊎ ((r : ArchitectureRelation) × (Memᴰ r rs × Copies r s))

pub add_all_total :
    (digest : ArchitectureRelation → Text) (rs : List ArchitectureRelation) (relations : Relations)
    → IsIndex relations
    → (more : Relations) × ((add_all digest relations rs ≡ some more) × AddedAll rs relations more)
unfolding add_all add
add_all_total digest [] relations h = (
  relations,
  (
    refl,
    record {
      index = h;
      kept = λ s m. m;
      stored = λ r m. absurd (Memᴰ.not-nil m);
      from = λ s m. inl m;
    },
  ),
)
add_all_total digest (r ∷ rs) relations h =
    let one = Added-to digest r relations (get relations r.id) h refl in
    let (more, (q, all)) = add_all_total digest rs one.more one.index in
    (
      more,
      (
        rw (one.made, add_all) q,
        record {
          index = all.index;
          kept = λ s m. all.kept s (one.kept s m);
          stored = λ x m.
              ⊎_elim
                (λ e.
                  let (s, (k, c)) = one.stored in
                  (s, (all.kept s k, subst (λ y. Copies y s) (sym e) c)))
                (all.stored x) (Memᴰ.cases_cons m);
          from = λ s m.
              ⊎_elim (λ k. ⊎_elim inl (λ c. inr (r, (Memᴰ.head refl, c))) (one.from s k))
                (λ (x, (k, c)). inr (x, (Memᴰ.tail k, c))) (all.from s m);
        },
      ),
    )
