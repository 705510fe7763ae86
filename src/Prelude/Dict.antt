-- ===== src/Prelude/Dict.antt =====
-- Python's `dict`: keys in the order of their first insertion.
use systemlens.Prelude.Tests.{if◌then◌else◌, Eq, Bool-cases}
use systemlens.Prelude.Members.{Memᴰ-append}
use mathlib.Core.Path.{◌≡◌, refl, sym}
use mathlib.Core.Logic.{◌⊎◌, inl, inr, ◌≢◌, ⊎_elim}
use mathlib.Core.Option.{Option, none, some}
use mathlib.Core.List.{List, [], ◌∷◌, ◌++◌, Memᴰ}
use mathlib.Core.List.Memᴰ
use native.Mathlib.Omega.{arith}

abbrev pub Dict {ℓ κ} : Type ℓ → Type κ → Type (ℓ ⊔ κ)
Dict K V = List (K × V)

module _ {ℓ κ} {K : Type ℓ} {V : Type κ} where
  abbrev pub keys : Dict K V → List K
  keys [] = []
  keys ((k, v) ∷ d) = k ∷ keys d

  abbrev pub values : Dict K V → List V
  values [] = []
  values ((k, v) ∷ d) = v ∷ values d

module _ {ℓ κ} {K : Type ℓ} {V : Type κ} ⦃e : Eq K⦄ where
  -- d.get(k)
  unfoldable pub get : Dict K V → K → Option V
  get [] k = none
  get ((j, v) ∷ d) k = if e.beq j k then some v else get d k

  -- d[k] = v
  unfoldable pub put : Dict K V → K → V → Dict K V
  put [] k v = (k, v) ∷ []
  put ((j, w) ∷ d) k v = if e.beq j k then (j, v) ∷ d else (j, w) ∷ put d k v

  pub get-put_self : (d : Dict K V) (k : K) (v : V) → get (put d k v) k ≡ some v
  unfolding get put
  get-put_self [] k v = ground (arith, e.beq_iff k k)
  get-put_self ((j, w) ∷ d) k v = ground (arith, get-put_self d k v)

  pub get-put_ne : (d : Dict K V) (k j : K) (v : V) → k ≢ j → get (put d k v) j ≡ get d j
  unfolding get put
  get-put_ne [] k j v n = ground (arith, e.beq_iff k j)
  get-put_ne ((i, w) ∷ d) k j v n =
      ground (arith, get-put_ne d k j v n, e.beq_iff i k, e.beq_iff i j)

  -- A value that `get` finds stands in the dict under its key.
  pub get-mem : (d : Dict K V) (k : K) (v : V) → get d k ≡ some v → Memᴰ (k, v) d
  unfolding get
  get-mem [] k v h = cc
  get-mem ((j, w) ∷ d) k v h = elim (Bool-cases (e.beq j k)) [
    | inl t ↦ Memᴰ.head (ground (arith, e.beq_iff j k))
    | inr t ↦ Memᴰ.tail (get-mem d k v (ground arith))
  ]

module _ {ℓ κ} {K : Type ℓ} {V : Type κ} ⦃e : Eq K⦄ where
  -- d.get(k, [])
  unfoldable pub group : Dict K (List V) → K → List V
  group [] k = []
  group ((j, vs) ∷ d) k = if e.beq j k then vs else group d k

  -- d.setdefault(k, []).append(v)
  unfoldable pub push : Dict K (List V) → K → V → Dict K (List V)
  push [] k v = (k, v ∷ []) ∷ []
  push ((j, vs) ∷ d) k v = if e.beq j k then (j, vs ++ v ∷ []) ∷ d else (j, vs) ∷ push d k v

  -- One group gains the value, and the others stay.
  pub group-push :
      (d : Dict K (List V)) (k j : K) (v : V)
      → group (push d k v) j ≡ (if e.beq k j then group d j ++ v ∷ [] else group d j)
  unfolding group push
  group-push [] k j v = ground arith
  group-push ((i, vs) ∷ d) k j v =
      ground (arith, group-push d k j v, e.beq_iff i k, e.beq_iff i j, e.beq_iff k j)

  -- for x in xs: d.setdefault(key(x), []).append(value(x))
  unfoldable pub group_all {μ} :
      {A : Type μ} → (A → K) → (A → V) → Dict K (List V) → List A → Dict K (List V)
  group_all key value d [] = d
  group_all key value d (x ∷ xs) = group_all key value (push d (key x) (value x)) xs

  -- The group of a key holds exactly the values of the items with that key.
  pub Memᴰ-group_all {μ} :
      {A : Type μ} (key : A → K) (value : A → V) (d : Dict K (List V)) (xs : List A) (k : K) (v : V)
      → Memᴰ v (group (group_all key value d xs) k)
      → Memᴰ v (group d k) ⊎ ((x : A) × Memᴰ x xs × (key x ≡ k) × (value x ≡ v))
  unfolding group_all
  Memᴰ-group_all key value d [] k v m = inl m
  Memᴰ-group_all key value d (x ∷ xs) k v m =
      ⊎_elim
        (λ (old : Memᴰ v (group (push d (key x) (value x)) k)).
          elim (Bool-cases (e.beq (key x) k)) [
            | inl t ↦
                ⊎_elim inl
                  (λ one.
                    inr (
                      x,
                      Memᴰ.head refl,
                      (e.beq_iff (key x) k).0 t,
                      sym (Memᴰ.eq_of_singleton one),
                    ))
                  ((Memᴰ-append v (group d k) (value x ∷ [])).0
                    (rw (group-push d (key x) k (value x), t) at old))
            | inr t ↦ inl (rw (group-push d (key x) k (value x), t) at old)
          ])
        (λ (y, n, p, q). inr (y, Memᴰ.tail n, p, q))
        (Memᴰ-group_all key value (push d (key x) (value x)) xs k v m)

  pub group-grows :
      (d : Dict K (List V)) (k j : K) (v w : V) → Memᴰ w (group d j) → Memᴰ w (group (push d k v) j)
  group-grows d k j v w m = rw (group-push d k j v) (elim (Bool-cases (e.beq k j)) [
    | inl t ↦ rw t (Memᴰ.append_left (v ∷ []) m)
    | inr t ↦ rw t m
  ])

  group_all-grows {μ} :
      {A : Type μ} (key : A → K) (value : A → V) (d : Dict K (List V)) (xs : List A) (k : K) (v : V)
      → Memᴰ v (group d k)
      → Memᴰ v (group (group_all key value d xs) k)
  unfolding group_all
  group_all-grows key value d [] k v m = m
  group_all-grows key value d (x ∷ xs) k v m =
      group_all-grows key value (push d (key x) (value x)) xs k v
        (group-grows d (key x) k (value x) v m)

  pub group_all-Memᴰ {μ} :
      {A : Type μ} (key : A → K) (value : A → V) (d : Dict K (List V)) (xs : List A) (x : A)
      → Memᴰ x xs
      → Memᴰ (value x) (group (group_all key value d xs) (key x))
  unfolding group_all
  group_all-Memᴰ key value d [] x m = absurd (Memᴰ.not-nil m)
  group_all-Memᴰ key value d (y ∷ xs) x m =
      ⊎_elim
        (λ same. rw same (
          group_all-grows key value (push d (key y) (value y)) xs (key y) (value y) (
            rw (group-push d (key y) (key y) (value y), (e.beq_iff (key y) (key y)).1 refl)
              (Memᴰ.append_right (group d (key y)) (Memᴰ.head refl)))))
        (λ n. group_all-Memᴰ key value (push d (key y) (value y)) xs x n) (Memᴰ.cases_cons m)
