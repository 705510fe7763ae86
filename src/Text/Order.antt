-- ===== src/Text/Order.antt =====
-- Python's order of texts, and `sorted`.
use systemlens.Prelude.{
  ◌≡◌, Bool, true, false, ◌&&◌, ◌||◌, List, [], ◌∷◌, ltb, nat_beq, if◌then◌else◌, Memᴰ, ◌↔◌, ◌⊎◌,
  inl, inr, Memᴰ-cons, Bool-cases, Distinct, sym, refl, ap, ◌∙◌, arith, map,
}
use mathlib.Core.List.Memᴰ
use mathlib.Core.List.Memᴰ.{not-nil}
use mathlib.Core.List.{Memᴰ.head, Memᴰ.tail}
use systemlens.Text.Strings.{Text}

-- a <= b, by code points
unfoldable pub text_leb : Text → Text → Bool
text_leb [] b = true
text_leb (x ∷ a) [] = false
text_leb (x ∷ a) (y ∷ b) = ltb x y || (nat_beq x y && text_leb a b)

-- a < b
unfoldable pub text_ltb : Text → Text → Bool
text_ltb a [] = false
text_ltb [] (y ∷ b) = true
text_ltb (x ∷ a) (y ∷ b) = ltb x y || (nat_beq x y && text_ltb a b)

pub text_ltb_trans :
    (a b c : Text) → text_ltb a b ≡ true → text_ltb b c ≡ true → text_ltb a c ≡ true
unfolding text_ltb
text_ltb_trans a b [] h k = cc
text_ltb_trans a [] (z ∷ c) h k = cc
text_ltb_trans [] (y ∷ b) (z ∷ c) h k = refl
text_ltb_trans (x ∷ a) (y ∷ b) (z ∷ c) h k = ground (arith, text_ltb_trans a b c)

pub text_ltb_irrefl : (a : Text) → text_ltb a a ≡ false
unfolding text_ltb
text_ltb_irrefl [] = refl
text_ltb_irrefl (x ∷ a) = ground (arith, text_ltb_irrefl a)

module _ {ℓ} {A : Type ℓ} (le : A → A → Bool) where
  -- A stable insertion.
  unfoldable pub insert : A → List A → List A
  insert x [] = x ∷ []
  insert x (y ∷ ys) = if le x y then x ∷ y ∷ ys else y ∷ insert x ys

  -- sorted(xs)
  unfoldable pub sort : List A → List A
  sort [] = []
  sort (x ∷ xs) = insert x (sort xs)

  Memᴰ-insert : (a x : A) (xs : List A) → Memᴰ a (insert x xs) ↔ ((a ≡ x) ⊎ Memᴰ a xs)
  unfolding insert
  Memᴰ-insert a x [] = Memᴰ-cons a x []
  Memᴰ-insert a x (y ∷ ys) = elim (Bool-cases (le x y)) [
    | inl t ↦ rw t (Memᴰ-cons a x (y ∷ ys))
    | inr t ↦
        let here = Memᴰ-cons a y (insert x ys) in
        let old = Memᴰ-cons a y ys in
        let rest = Memᴰ-insert a x ys in
        rw t (
          λ m. elim (here.0 m) [
            | inl e ↦ inr (old.1 (inl e))
            | inr n ↦ elim (rest.0 n) [ inl e ↦ inl e | inr k ↦ inr (old.1 (inr k)) ]
          ],
          λ m. here.1 (elim m [
            | inl e ↦ inr (rest.1 (inl e))
            | inr k ↦ elim (old.0 k) [ inl e ↦ inl e | inr n ↦ inr (rest.1 (inr n)) ]
          ]),
        )
  ]

  -- Sorting keeps the members.
  pub Memᴰ-sort : (a : A) (xs : List A) → Memᴰ a (sort xs) ↔ Memᴰ a xs
  unfolding sort
  Memᴰ-sort a [] = (λ m. m, λ m. m)
  Memᴰ-sort a (x ∷ xs) =
      let placed = Memᴰ-insert a x (sort xs) in
      let rest = Memᴰ-sort a xs in
      let at = Memᴰ-cons a x xs in
      (
        λ m. at.1 (elim (placed.0 m) [ inl e ↦ inl e | inr n ↦ inr (rest.0 n) ]),
        λ m. placed.1 (elim (at.0 m) [ inl e ↦ inl e | inr n ↦ inr (rest.1 n) ]),
      )

  Distinct-insert : (x : A) (xs : List A) → Distinct xs → (¬ Memᴰ x xs) → Distinct (insert x xs)
  unfolding insert
  Distinct-insert x [] d n = (not-nil, tt)
  Distinct-insert x (y ∷ ys) d n = elim (Bool-cases (le x y)) [
    | inl t ↦ rw t (n, d)
    | inr t ↦ rw t (
      λ m. elim ((Memᴰ-insert y x ys).0 m) [ inl e ↦ n (head (sym e)) | inr k ↦ d.0 k ],
      Distinct-insert x ys d.1 (λ m. n (tail m)),
    )
  ]

  -- Sorting keeps the elements different.
  pub Distinct-sort : (xs : List A) → Distinct xs → Distinct (sort xs)
  unfolding sort
  Distinct-sort [] d = tt
  Distinct-sort (x ∷ xs) d =
      Distinct-insert x (sort xs) (Distinct-sort xs d.1) (λ m. d.0 ((Memᴰ-sort x xs).0 m))

  Memᴰ-map-sort {κ} :
      {B : Type κ} (k : A → B) (b : B) (xs : List A) → Memᴰ b (map k (sort xs)) → Memᴰ b (map k xs)
  Memᴰ-map-sort k b xs m =
      let (x, n, q) = Memᴰ.of_map k (sort xs) m in
      Memᴰ.cast (sym q) (Memᴰ.map k ((Memᴰ-sort x xs).0 n))

  Distinct-map-insert {κ} :
      {B : Type κ} (k : A → B) (x : A) (xs : List A)
      → Distinct (map k xs)
      → (¬ Memᴰ (k x) (map k xs))
      → Distinct (map k (insert x xs))
  unfolding insert
  Distinct-map-insert k x [] d n = (not-nil, tt)
  Distinct-map-insert k x (y ∷ ys) d n = elim (Bool-cases (le x y)) [
    | inl t ↦ rw t (n, d)
    | inr t ↦ rw t (
      λ m.
          let (z, at, q) = Memᴰ.of_map k (insert x ys) m in
          elim ((Memᴰ-insert z x ys).0 at) [
            | inl e ↦ n (head (ap k (sym e) ∙ q))
            | inr r ↦ d.0 (Memᴰ.cast (sym q) (Memᴰ.map k r))
          ],
      Distinct-map-insert k x ys d.1 (λ m. n (tail m)),
    )
  ]

  -- Sorting keeps the keys of the elements different.
  pub Distinct-map-sort {κ} :
      {B : Type κ} (k : A → B) (xs : List A) → Distinct (map k xs) → Distinct (map k (sort xs))
  unfolding sort
  Distinct-map-sort k [] d = tt
  Distinct-map-sort k (x ∷ xs) d =
      Distinct-map-insert k x (sort xs) (Distinct-map-sort k xs d.1)
        (λ m. d.0 (Memᴰ-map-sort k (k x) xs m))
