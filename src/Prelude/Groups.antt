-- ===== src/Prelude/Groups.antt =====
-- The items of a dict of groups, as `d.items()` and `d.values()` hand them out.
use mathlib.Core.List.Memᴰ
use mathlib.Core.Path.{◌≡◌, sym, ap}
use mathlib.Core.Logic.{◌⊎◌, inl, inr, ⊎_elim}
use mathlib.Core.List.{List, [], ◌∷◌, ◌++◌, map, append_assoc, append-nil, Memᴰ}
use mathlib.Core.Path.{refl, ◌∙◌}
use systemlens.Prelude.Lists.{filter}
use systemlens.Prelude.Tests.{Eq, Bool-cases}
use systemlens.Prelude.Members.{Distinct}
use systemlens.Prelude.Dict.{Dict, keys, values, put, group, push, group-push, group_all}

module _ {ℓ κ} {K : Type ℓ} {V : Type κ} where
  pub keys-Memᴰ : (d : Dict K V) (k : K) (v : V) → Memᴰ (k, v) d → Memᴰ k (keys d)
  keys-Memᴰ [] k v m = absurd (Memᴰ.not-nil m)
  keys-Memᴰ ((j, w) ∷ d) k v m =
      ⊎_elim (λ e. Memᴰ.head (ap (λ (p : K × V). p.0) e)) (λ n. Memᴰ.tail (keys-Memᴰ d k v n))
        (Memᴰ.cases_cons m)

  pub Memᴰ-keys : (d : Dict K V) (k : K) → Memᴰ k (keys d) → (v : V) × Memᴰ (k, v) d
  Memᴰ-keys [] k m = absurd (Memᴰ.not-nil m)
  Memᴰ-keys ((j, w) ∷ d) k m =
      ⊎_elim (λ e. (w, Memᴰ.head (ap (λ (i : K). (i, w)) e)))
        (λ n. let (v, r) = Memᴰ-keys d k n in (v, Memᴰ.tail r)) (Memᴰ.cases_cons m)

  pub Memᴰ-values : (d : Dict K V) (v : V) → Memᴰ v (values d) → (k : K) × Memᴰ (k, v) d
  Memᴰ-values [] v m = absurd (Memᴰ.not-nil m)
  Memᴰ-values ((j, w) ∷ d) v m =
      ⊎_elim (λ e. (j, Memᴰ.head (ap (λ (u : V). (j, u)) e)))
        (λ n. let (k, r) = Memᴰ-values d v n in (k, Memᴰ.tail r)) (Memᴰ.cases_cons m)

  pub values-Memᴰ : (d : Dict K V) (k : K) (v : V) → Memᴰ (k, v) d → Memᴰ v (values d)
  values-Memᴰ [] k v m = absurd (Memᴰ.not-nil m)
  values-Memᴰ ((j, w) ∷ d) k v m =
      ⊎_elim (λ e. Memᴰ.head (ap (λ (p : K × V). p.1) e)) (λ n. Memᴰ.tail (values-Memᴰ d k v n))
        (Memᴰ.cases_cons m)

module _ {ℓ κ} {K : Type ℓ} {V : Type κ} ⦃e : Eq K⦄ where
  keys-push :
      (d : Dict K (List V)) (k j : K) (v : V)
      → Memᴰ j (keys (push d k v))
      → (j ≡ k) ⊎ Memᴰ j (keys d)
  unfolding push
  keys-push [] k j v m = inl (Memᴰ.eq_of_singleton m)
  keys-push ((i, vs) ∷ d) k j v m = elim (Bool-cases (e.beq i k)) [
    | inl t ↦ inr (rw t at m)
    | inr t ↦
        ⊎_elim (λ q. inr (Memᴰ.head q))
          (λ n. ⊎_elim inl (λ r. inr (Memᴰ.tail r)) (keys-push d k j v n))
          (Memᴰ.cases_cons {a = j} {b = i} {l = keys (push d k v)} (rw t at m))
  ]

  pub Distinct-push :
      (d : Dict K (List V)) (k : K) (v : V) → Distinct (keys d) → Distinct (keys (push d k v))
  unfolding push
  Distinct-push [] k v h = (Memᴰ.not-nil, tt)
  Distinct-push ((i, vs) ∷ d) k v h = elim (Bool-cases (e.beq i k)) [
    | inl t ↦ rw t h
    | inr t ↦ rw t (
      λ m. ⊎_elim (λ q. cc ((e.beq_iff i k).1 q)) h.0 (keys-push d k i v m),
      Distinct-push d k v h.1,
    )
  ]

  pub Distinct-group_all {μ} :
      {A : Type μ} (key : A → K) (value : A → V) (d : Dict K (List V)) (xs : List A)
      → Distinct (keys d)
      → Distinct (keys (group_all key value d xs))
  unfolding group_all
  Distinct-group_all key value d [] h = h
  Distinct-group_all key value d (x ∷ xs) h =
      Distinct-group_all key value (push d (key x) (value x)) xs
        (Distinct-push d (key x) (value x) h)

  -- An item of the dict is the group of its key.
  pub group_of_item :
      (d : Dict K (List V)) (k : K) (vs : List V)
      → Distinct (keys d)
      → Memᴰ (k, vs) d
      → group d k ≡ vs
  unfolding group
  group_of_item [] k vs h m = absurd (Memᴰ.not-nil m)
  group_of_item ((j, ws) ∷ d) k vs h m = elim (Bool-cases (e.beq j k)) [
    | inl t ↦ rw t (
        ⊎_elim (λ q. sym (ap (λ (p : K × List V). p.1) q))
          (λ n. absurd (h.0 (Memᴰ.cast ((e.beq_iff j k).0 t) (keys-Memᴰ d k vs n))))
          (Memᴰ.cases_cons m))
    | inr t ↦ rw t (
        ⊎_elim (λ q. cc ((e.beq_iff j k).1 (sym (ap (λ (p : K × List V). p.0) q))))
          (group_of_item d k vs h.1) (Memᴰ.cases_cons m))
  ]

  -- A group that holds something is an item.
  pub item_of_group :
      (d : Dict K (List V)) (k : K) (v : V) → Memᴰ v (group d k) → Memᴰ (k, group d k) d
  unfolding group
  item_of_group [] k v m = absurd (Memᴰ.not-nil m)
  item_of_group ((j, ws) ∷ d) k v m = elim (Bool-cases (e.beq j k)) [
    | inl t ↦ rw t (Memᴰ.head (ap (λ (i : K). (i, ws)) (sym ((e.beq_iff j k).0 t))))
    | inr t ↦ rw t (Memᴰ.tail (item_of_group d k v (rw t at m)))
  ]

  -- The loop puts the items of a key behind the group that stood there, in their order.
  pub group-group_all {μ} :
      {A : Type μ} (key : A → K) (value : A → V) (d : Dict K (List V)) (xs : List A) (k : K)
      → group (group_all key value d xs) k
        ≡ group d k ++ map value (filter (λ x. e.beq (key x) k) xs)
  unfolding group_all filter
  group-group_all key value d [] k = sym (append-nil (group d k))
  group-group_all key value d (x ∷ xs) k =
      group-group_all key value (push d (key x) (value x)) xs k
      ∙ rw (group-push d (key x) k (value x)) (elim (Bool-cases (e.beq (key x) k)) [
        | inl t ↦
            rw t (
              append_assoc (group d k) (value x ∷ [])
                (map value (filter (λ y. e.beq (key y) k) xs)))
        | inr t ↦ rw t refl
      ])

  pub group-group_all_new {μ} :
      {A : Type μ} (key : A → K) (value : A → V) (xs : List A) (k : K)
      → group (group_all key value [] xs) k ≡ map value (filter (λ x. e.beq (key x) k) xs)
  unfolding group
  group-group_all_new key value xs k = group-group_all key value [] xs k

  -- d[k] = v keeps the keys and has its own.
  pub keys-put :
      (d : Dict K V) (k i : K) (v : V) → (i ≡ k) ⊎ Memᴰ i (keys d) → Memᴰ i (keys (put d k v))
  unfolding put
  keys-put [] k i v (inl q) = Memᴰ.head q
  keys-put [] k i v (inr m) = absurd (Memᴰ.not-nil m)
  keys-put ((j, w) ∷ d) k i v h = elim (Bool-cases (e.beq j k)) [
    | inl t ↦ rw t (elim h [ inl q ↦ Memᴰ.head (q ∙ sym ((e.beq_iff j k).0 t)) | inr m ↦ m ])
    | inr t ↦ rw t (elim h [
      | inl q ↦ Memᴰ.tail (keys-put d k i v (inl q))
      | inr m ↦ ⊎_elim Memᴰ.head (λ n. Memᴰ.tail (keys-put d k i v (inr n))) (Memᴰ.cases_cons m)
    ])
  ]
