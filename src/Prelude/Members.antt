-- ===== src/Prelude/Members.antt =====
-- Membership, distinctness and the loop rule, for the lists of the model.
use mathlib.Core.Path.{◌≡◌, refl, ap, sym, subst, ◌∙◌}
use mathlib.Core.Logic.{◌↔◌, ◌⊎◌, inl, inr, ⊎_elim}
use mathlib.Core.Bool.{Bool, true, false}
use mathlib.Core.List.{List, [], ◌∷◌, ◌++◌, foldl, Memᴰ}
use mathlib.Core.List.Memᴰ
use native.Mathlib.Omega.{arith}
use Prim.Native.Nat.{◌≤◌}
use systemlens.Prelude.Tests.{Eq, Bool-cases}
use systemlens.Prelude.Lists.{filter, all, any, contains, dedup_from, dedup, length}

-- Every element satisfies `P`.
abbrev pub All {ℓ κ} : {A : Type ℓ} → (A → Type κ) → List A → Type κ
All P [] = Unit
All P (x ∷ xs) = P x × All P xs

-- The elements are pairwise different.
abbrev pub Distinct {ℓ} : {A : Type ℓ} → List A → Type ℓ
Distinct [] = Unit
Distinct (x ∷ xs) = (¬ Memᴰ x xs) × Distinct xs

module _ {ℓ} {A : Type ℓ} where
  pub Memᴰ-cons : (a x : A) (xs : List A) → Memᴰ a (x ∷ xs) ↔ ((a ≡ x) ⊎ Memᴰ a xs)
  Memᴰ-cons a x xs = (Memᴰ.cases_cons, ⊎_elim Memᴰ.head Memᴰ.tail)

  pub Memᴰ-append : (a : A) (xs ys : List A) → Memᴰ a (xs ++ ys) ↔ (Memᴰ a xs ⊎ Memᴰ a ys)
  Memᴰ-append a xs ys = (Memᴰ.append_cases xs, ⊎_elim (Memᴰ.append_left ys) (Memᴰ.append_right xs))

  pub Memᴰ-filter :
      (p : A → Bool) (a : A) (xs : List A) → Memᴰ a (filter p xs) ↔ (Memᴰ a xs × (p a ≡ true))
  unfolding filter
  Memᴰ-filter p a [] = (λ m. absurd (Memᴰ.not-nil m), λ m. m.0)
  Memᴰ-filter p a (x ∷ xs) = elim (Bool-cases (p x)) [
    | inl e ↦ rw (e) (
      λ m.
          ⊎_elim (λ q. (Memᴰ.head q, ap p q ∙ e))
            (λ n. (Memᴰ.tail ((Memᴰ-filter p a xs).0 n).0, ((Memᴰ-filter p a xs).0 n).1))
            (Memᴰ.cases_cons m),
      λ (m, t).
          ⊎_elim Memᴰ.head (λ n. Memᴰ.tail ((Memᴰ-filter p a xs).1 (n, t))) (Memᴰ.cases_cons m),
    )
    | inr e ↦ rw (e) (
      λ m. (Memᴰ.tail ((Memᴰ-filter p a xs).0 m).0, ((Memᴰ-filter p a xs).0 m).1),
      λ (m, t).
          ⊎_elim (λ q. absurd (cc (ap p q, e, t))) (λ n. (Memᴰ-filter p a xs).1 (n, t))
            (Memᴰ.cases_cons m),
    )
  ]

  pub Distinct-append :
      (xs : List A) (a : A) → Distinct xs → (¬ Memᴰ a xs) → Distinct (xs ++ a ∷ [])
  Distinct-append [] a d n = (Memᴰ.not-nil, tt)
  Distinct-append (x ∷ xs) a d n = (
    λ m.
        ⊎_elim d.0 (λ one. n (Memᴰ.head (sym (Memᴰ.eq_of_singleton one)))) (Memᴰ.append_cases xs m),
    Distinct-append xs a d.1 (λ m. n (Memᴰ.tail m)),
  )

  pub All-at {κ} : (P : A → Type κ) {a : A} (xs : List A) → All P xs → Memᴰ a xs → P a
  All-at P [] h m = absurd (Memᴰ.not-nil m)
  All-at P (x ∷ xs) h m =
      ⊎_elim (λ e. subst P (sym e) h.0) (λ n. All-at P xs h.1 n) (Memᴰ.cases_cons m)

  pub All-of {κ} : {P : A → Type κ} (xs : List A) → ((a : A) → Memᴰ a xs → P a) → All P xs
  All-of [] h = tt
  All-of (x ∷ xs) h = (h x (Memᴰ.head refl), All-of xs (λ a m. h a (Memᴰ.tail m)))

  pub all_at : (p : A → Bool) (a : A) (xs : List A) → all p xs ≡ true → Memᴰ a xs → p a ≡ true
  unfolding all
  all_at p a [] h m = absurd (Memᴰ.not-nil m)
  all_at p a (x ∷ xs) h m =
      ⊎_elim (λ e. ap p e ∙ ground arith) (all_at p a xs (ground arith)) (Memᴰ.cases_cons m)

  pub all_of : (p : A → Bool) (xs : List A) → ((a : A) → Memᴰ a xs → p a ≡ true) → all p xs ≡ true
  unfolding all
  all_of p [] h = refl
  all_of p (x ∷ xs) h = ground (arith, h x (Memᴰ.head refl), all_of p xs (λ a m. h a (Memᴰ.tail m)))

  pub any_of : (p : A → Bool) (a : A) (xs : List A) → Memᴰ a xs → p a ≡ true → any p xs ≡ true
  unfolding any
  any_of p a [] m h = absurd (Memᴰ.not-nil m)
  any_of p a (x ∷ xs) m h =
      ⊎_elim (λ e. ground (arith, ap p e)) (λ n. ground (arith, any_of p a xs n h))
        (Memᴰ.cases_cons m)

  pub any_at : (p : A → Bool) (xs : List A) → any p xs ≡ true → (a : A) × Memᴰ a xs × (p a ≡ true)
  unfolding any
  any_at p [] h = cc
  any_at p (x ∷ xs) h = elim (Bool-cases (p x)) [
    | inl e ↦ (x, Memᴰ.head refl, e)
    | inr e ↦ let (a, m, t) = any_at p xs (ground arith) in (a, Memᴰ.tail m, t)
  ]

module _ {ℓ κ} {S : Type ℓ} {A : Type κ} where
  -- An invariant that each round keeps holds after the loop.
  pub foldl_inv {μ} :
      (P : S → Type μ) (f : S → A → S) (xs : List A)
      → ((s : S) (a : A) → Memᴰ a xs → P s → P (f s a))
      → (s : S) → P s
      → P (foldl f s xs)
  foldl_inv P f [] keep s h = h
  foldl_inv P f (x ∷ xs) keep s h =
      foldl_inv P f xs (λ t a m. keep t a (Memᴰ.tail m)) (f s x) (keep s x (Memᴰ.head refl) h)

  -- What one round establishes and the later ones keep holds after the loop.
  pub foldl_reaches {μ} :
      (P : S → Type μ) (f : S → A → S) (a : A) (xs : List A)
      → ((s : S) → P (f s a))
      → ((s : S) (b : A) → P s → P (f s b))
      → Memᴰ a xs
      → (s : S) → P (foldl f s xs)
  foldl_reaches P f a [] make keep m s = absurd (Memᴰ.not-nil m)
  foldl_reaches P f a (x ∷ xs) make keep m s =
      ⊎_elim (λ e. foldl_inv P f xs (λ t b _. keep t b) (f s x) (subst (λ b. P (f s b)) e (make s)))
        (λ n. foldl_reaches P f a xs make keep n (f s x)) (Memᴰ.cases_cons m)

module _ {ℓ} {A : Type ℓ} ⦃e : Eq A⦄ where
  pub contains_iff : (xs : List A) (a : A) → (contains xs a ≡ true) ↔ Memᴰ a xs
  unfolding contains
  contains_iff [] a = (λ h. cc, λ m. absurd (Memᴰ.not-nil m))
  contains_iff (x ∷ xs) a = (
    λ h. elim (Bool-cases (e.beq x a)) [
      | inl q ↦ Memᴰ.head (sym ((e.beq_iff x a).0 q))
      | inr q ↦ Memᴰ.tail ((contains_iff xs a).0 (ground arith))
    ],
    λ m.
        ⊎_elim (λ q. ground (arith, (e.beq_iff x a).1 (sym q)))
          (λ n. ground (arith, (contains_iff xs a).1 n)) (Memᴰ.cases_cons m),
  )

  pub not_mem_of_contains : (xs : List A) (a : A) → contains xs a ≡ false → ¬ Memᴰ a xs
  not_mem_of_contains xs a h m = cc ((contains_iff xs a).1 m)

  pub Memᴰ-dec : (a : A) (xs : List A) → Memᴰ a xs ⊎ (¬ Memᴰ a xs)
  Memᴰ-dec a xs = elim (Bool-cases (contains xs a)) [
    | inl h ↦ inl ((contains_iff xs a).0 h)
    | inr h ↦ inr (not_mem_of_contains xs a h)
  ]

  -- `dedup` keeps the values and repeats none.
  Memᴰ-dedup_from :
      (seen : List A) (a : A) (xs : List A)
      → Memᴰ a (dedup_from seen xs) ↔ (Memᴰ a xs × (¬ Memᴰ a seen))
  unfolding dedup_from
  Memᴰ-dedup_from seen a [] = (λ m. absurd (Memᴰ.not-nil m), λ m. m.0)
  Memᴰ-dedup_from seen a (x ∷ xs) =
      let was_in = contains_iff seen x in
      let at = Memᴰ-cons a x xs in
      let later = Memᴰ-dedup_from seen a xs in
      let marked = Memᴰ-cons a x seen in
      let first = Memᴰ-cons a x (dedup_from (x ∷ seen) xs) in
      let after = Memᴰ-dedup_from (x ∷ seen) a xs in
      elim (Bool-cases (contains seen x)) [
        | inl t ↦
            let here : a ≡ x → Memᴰ a seen = λ e. Memᴰ.cast e (was_in.0 t) in
            rw t (
              λ m. (at.1 (inr (later.0 m).0), (later.0 m).1),
              λ (m, n). later.1 (⊎_elim (λ e. absurd (n (here e))) (λ r. r) (at.0 m), n),
            )
        | inr t ↦
            let new : a ≡ x → ¬ Memᴰ a seen =
              λ e m. not_mem_of_contains seen x t (Memᴰ.cast (sym e) m) in
            rw t (
              λ m.
                  ⊎_elim (λ e. (at.1 (inl e), new e))
                    (λ n. (at.1 (inr (after.0 n).0), λ k. (after.0 n).1 (marked.1 (inr k))))
                    (first.0 m),
              λ (m, n). first.1 (elim (at.0 m) [
                | inl e ↦ inl e
                | inr r ↦ elim ((λ (k : Bool). Bool-cases k) (e.beq a x)) [
                  | inl q ↦ inl ((e.beq_iff a x).0 q)
                  | inr q ↦
                      inr (after.1 (r, λ k. ⊎_elim (λ p. cc ((e.beq_iff a x).1 p)) n (marked.0 k)))
                ]
              ]),
            )
      ]

  Distinct-dedup_from : (seen xs : List A) → Distinct (dedup_from seen xs)
  unfolding dedup_from
  Distinct-dedup_from seen [] = tt
  Distinct-dedup_from seen (x ∷ xs) = elim (Bool-cases (contains seen x)) [
    | inl h ↦ rw h (Distinct-dedup_from seen xs)
    | inr h ↦ rw h (
      λ m. ((Memᴰ-dedup_from (x ∷ seen) x xs).0 m).1 (Memᴰ.head refl),
      Distinct-dedup_from (x ∷ seen) xs,
    )
  ]

  pub Memᴰ-dedup : (a : A) (xs : List A) → Memᴰ a (dedup xs) ↔ Memᴰ a xs
  unfolding dedup
  Memᴰ-dedup a xs =
      (λ m. ((Memᴰ-dedup_from [] a xs).0 m).0, λ m. (Memᴰ-dedup_from [] a xs).1 (m, Memᴰ.not-nil))

  pub Distinct-dedup : (xs : List A) → Distinct (dedup xs)
  unfolding dedup
  Distinct-dedup = Distinct-dedup_from []

  length-dedup_from : (seen xs : List A) → length (dedup_from seen xs) ≤ length xs
  unfolding dedup_from
  length-dedup_from seen [] = omega arith
  length-dedup_from seen (x ∷ xs) =
      ground (arith, length-dedup_from seen xs, length-dedup_from (x ∷ seen) xs)

  dedup_from_full :
      (seen xs : List A)
      → length (dedup_from seen xs) ≡ length xs
      → Distinct xs × ((a : A) → Memᴰ a xs → ¬ Memᴰ a seen)
  unfolding dedup_from
  dedup_from_full seen [] h = (tt, λ a m. absurd (Memᴰ.not-nil m))
  dedup_from_full seen (x ∷ xs) h = elim (Bool-cases (contains seen x)) [
    | inl t ↦ absurd (ground (arith, length-dedup_from seen xs))
    | inr t ↦
        let (d, fresh) = dedup_from_full (x ∷ seen) xs (ground arith) in
        (
          (λ m. fresh x m (Memᴰ.head refl), d),
          λ a m.
              ⊎_elim (λ e n. not_mem_of_contains seen x t (Memᴰ.cast (sym e) n))
                (λ k n. fresh a k (Memᴰ.tail n)) (Memᴰ.cases_cons m),
        )
  ]

  dedup_from_same :
      (seen xs : List A)
      → Distinct xs
      → ((a : A) → Memᴰ a xs → ¬ Memᴰ a seen)
      → dedup_from seen xs ≡ xs
  unfolding dedup_from
  dedup_from_same seen [] d fresh = refl
  dedup_from_same seen (x ∷ xs) d fresh = elim (Bool-cases (contains seen x)) [
    | inl t ↦ absurd (fresh x (Memᴰ.head refl) ((contains_iff seen x).0 t))
    | inr t ↦ rw t (
        ap (λ (r : List A). x ∷ r)
          (dedup_from_same (x ∷ seen) xs d.1 (λ a m n.
            ⊎_elim (λ e. d.0 (Memᴰ.cast (sym e) m)) (fresh a (Memᴰ.tail m)) (Memᴰ.cases_cons n))))
  ]

  -- A set has as many values as the list exactly if the list repeats none.
  pub length-dedup_iff : (xs : List A) → (length (dedup xs) ≡ length xs) ↔ Distinct xs
  unfolding dedup
  length-dedup_iff xs = (
    λ h. (dedup_from_full [] xs h).0,
    λ d. ap length (dedup_from_same [] xs d (λ a m. Memᴰ.not-nil)),
  )
