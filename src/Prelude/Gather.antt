-- ===== src/Prelude/Gather.antt =====
-- Loops whose rounds extend one list, also with rounds that may raise: `none` is the error.
use mathlib.Core.Path.{◌≡◌, refl, subst}
use mathlib.Core.Logic.{◌↔◌, ⊎_elim}
use mathlib.Core.Option.{Option, none, some}
use mathlib.Core.List.{List, [], ◌∷◌, ◌++◌, flat_map, Memᴰ}
use mathlib.Core.List.Memᴰ
use systemlens.Prelude.Members.{Memᴰ-append}

module _ {ℓ} {B : Type ℓ} where
  unfoldable pub joined : Option (List B) → Option (List B) → Option (List B)
  joined none zs = none
  joined (some ys) none = none
  joined (some ys) (some zs) = some (ys ++ zs)

module _ {ℓ κ} {A : Type ℓ} {B : Type κ} (f : A → Option (List B)) where
  -- for x in xs: zs.extend(f(x))
  unfoldable pub gather : List A → Option (List B)
  unfolding joined
  gather [] = some []
  gather (x ∷ xs) = joined (f x) (gather xs)

  -- The loop ends with what its rounds give, if no round raises.
  pub gather_total :
      (xs : List A)
      → ((x : A) → Memᴰ x xs → (ys : List B) × (f x ≡ some ys))
      → (zs : List B) × ((gather xs ≡ some zs)
          × (((x : A) (ys : List B) (y : B) → Memᴰ x xs → f x ≡ some ys → Memᴰ y ys → Memᴰ y zs)
              × ((y : B)
                  → Memᴰ y zs
                  → (x : A) × (Memᴰ x xs × ((ys : List B) × ((f x ≡ some ys) × Memᴰ y ys))))))
  unfolding gather joined
  gather_total [] h =
      ([], (refl, (λ x ys y m. absurd (Memᴰ.not-nil m), λ y m. absurd (Memᴰ.not-nil m))))
  gather_total (x ∷ xs) h =
      let (us, e) = h x (Memᴰ.head refl) in
      let (vs, (q, (into, out))) = gather_total xs (λ z m. h z (Memᴰ.tail m)) in
      (
        us ++ vs,
        (
          rw (e, gather) (rw (q) refl),
          (
            λ z ys y m k n.
                ⊎_elim
                  (λ same. Memᴰ.append_left vs (subst (Memᴰ y) (first_result z ys us same k e) n))
                  (λ later. Memᴰ.append_right us (into z ys y later k n)) (Memᴰ.cases_cons m),
            λ y m.
                ⊎_elim (λ n. (x, (Memᴰ.head refl, (us, (e, n)))))
                  (λ n. let (z, (k, r)) = out y n in (z, (Memᴰ.tail k, r)))
                  ((Memᴰ-append y us vs).0 m),
          ),
        ),
      )
    where
      first_result : (z : A) (ys us : List B) → z ≡ x → f z ≡ some ys → f x ≡ some us → ys ≡ us
      first_result z ys us same k e = cc

module _ {ℓ κ} {A : Type ℓ} {B : Type κ} (f : A → List B) where
  pub flat_map_iff :
      (xs : List A) (y : B) → Memᴰ y (flat_map f xs) ↔ ((x : A) × (Memᴰ x xs × Memᴰ y (f x)))
  unfolding mathlib.Core.List.flat_map
  flat_map_iff [] y = (λ m. absurd (Memᴰ.not-nil m), λ (x, (m, n)). absurd (Memᴰ.not-nil m))
  flat_map_iff (x ∷ xs) y = (
    λ m.
        ⊎_elim (λ n. (x, (Memᴰ.head refl, n)))
          (λ n. let (z, (k, at)) = (flat_map_iff xs y).0 n in (z, (Memᴰ.tail k, at)))
          ((Memᴰ-append y (f x) (flat_map f xs)).0 m),
    λ (z, (m, n)).
        ⊎_elim (λ same. Memᴰ.append_left (flat_map f xs) (subst (λ w. Memᴰ y (f w)) same n))
          (λ k. Memᴰ.append_right (f x) ((flat_map_iff xs y).1 (z, (k, n)))) (Memᴰ.cases_cons m),
  )
