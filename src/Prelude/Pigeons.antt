-- ===== src/Prelude/Pigeons.antt =====
-- A list of different values that all stand in another list is no longer than that list.
use mathlib.Core.List.Memᴰ
use mathlib.Core.Logic.{⊎_elim, inl, inr}
use mathlib.Core.Path.{◌≡◌, refl, sym, ◌∙◌}
use mathlib.Core.List.{List, [], ◌∷◌, Memᴰ}
use Prim.Native.Nat.{suc, ◌≤◌}
use native.Mathlib.Omega.{arith}
use systemlens.Prelude.Tests.{if◌then◌else◌, Eq, Bool-cases}
use systemlens.Prelude.Lists.{length}
use systemlens.Prelude.Members.{Distinct}

module _ {ℓ} {A : Type ℓ} ⦃e : Eq A⦄ where
  -- The list without the first occurrence of a value.
  without : A → List A → List A
  without a [] = []
  without a (x ∷ xs) = if e.beq x a then xs else x ∷ without a xs

  length-without : (a : A) (xs : List A) → Memᴰ a xs → suc (length (without a xs)) ≡ length xs
  unfolding without
  length-without a [] m = absurd (Memᴰ.not-nil m)
  length-without a (x ∷ xs) m = elim (Bool-cases (e.beq x a)) [
    | inl t ↦ rw t
    | inr t ↦ rw t (
        ⊎_elim (λ q. cc ((e.beq_iff x a).1 (sym q))) (λ n. omega (arith, length-without a xs n))
          (Memᴰ.cases_cons m))
  ]

  Memᴰ-without : (a b : A) (xs : List A) → (¬ (b ≡ a)) → Memᴰ b xs → Memᴰ b (without a xs)
  unfolding without
  Memᴰ-without a b [] ne m = m
  Memᴰ-without a b (x ∷ xs) ne m = elim (Bool-cases (e.beq x a)) [
    | inl t ↦
        rw t (⊎_elim (λ q. absurd (ne (q ∙ (e.beq_iff x a).0 t))) (λ n. n) (Memᴰ.cases_cons m))
    | inr t ↦
        rw t (⊎_elim Memᴰ.head (λ n. Memᴰ.tail (Memᴰ-without a b xs ne n)) (Memᴰ.cases_cons m))
  ]

  pub length-le_of_mem :
      (xs ys : List A) → Distinct xs → ((a : A) → Memᴰ a xs → Memᴰ a ys) → length xs ≤ length ys
  length-le_of_mem [] ys d h = omega arith
  length-le_of_mem (x ∷ xs) ys d h =
      let here = h x (Memᴰ.head refl) in
      omega (
        arith,
        length-without x ys here,
        length-le_of_mem xs (without x ys) d.1
            (λ a m. Memᴰ-without x a ys (λ q. d.0 (Memᴰ.cast (sym q) m)) (h a (Memᴰ.tail m))),
      )
