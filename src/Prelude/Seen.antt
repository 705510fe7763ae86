-- ===== src/Prelude/Seen.antt =====
-- The loop that keeps the first item of each key:
-- `if key in seen: continue; seen.add(key); items.append(item)`.
use mathlib.Core.Path.{◌≡◌, refl}
use mathlib.Core.Logic.{⊎_elim, inl, inr, ◌↔◌}
use mathlib.Core.List.{List, [], ◌∷◌, ◌++◌, map, foldl, Memᴰ}
use mathlib.Core.List.Memᴰ
use systemlens.Prelude.Tests.{Eq, if◌then◌else◌, Bool-cases}
use systemlens.Prelude.Lists.{contains}
use systemlens.Prelude.Members.{
  Distinct, Distinct-append, contains_iff, not_mem_of_contains, foldl_inv, foldl_reaches,
}

pub record Kept {ℓ κ} (A : Type ℓ) (K : Type κ) : Type (ℓ ⊔ κ) where
  pub items : List A
  pub seen : List K

module _ {ℓ κ} {A : Type ℓ} {K : Type κ} ⦃e : Eq K⦄ (key : A → K) where
  unfoldable pub keep : Kept A K → A → Kept A K
  keep t a =
      if contains t.seen (key a)
      then t
      else record { items = t.items ++ a ∷ []; seen = key a ∷ t.seen }

  unfoldable pub keep_all : List A → Kept A K
  keep_all xs = foldl keep (record { items = []; seen = [] }) xs

  map-append : (xs : List A) (a : A) → map key (xs ++ a ∷ []) ≡ map key xs ++ key a ∷ []
  map-append [] a = refl
  map-append (x ∷ xs) a = cc (map-append xs a)

  -- The kept items come from the list, and `seen` holds their keys, each once.
  record Sound (all : List A) (t : Kept A K) : Type (ℓ ⊔ κ) where
    pub from : (a : A) → Memᴰ a t.items → Memᴰ a all
    pub keys : (k : K) → Memᴰ k t.seen ↔ Memᴰ k (map key t.items)
    pub once : Distinct (map key t.items)

  keep-Sound :
      (all : List A) (t : Kept A K) (a : A) → Memᴰ a all → Sound all t → Sound all (keep t a)
  unfolding keep
  keep-Sound all t a m h = elim (Bool-cases (contains t.seen (key a))) [
    | inl c ↦ rw c h
    | inr c ↦ rw c (record {
      from = λ x n.
          ⊎_elim (h.from x) (λ one. Memᴰ.cast (Memᴰ.eq_of_singleton one) m)
            (Memᴰ.append_cases t.items n);
      keys = λ k. rw (map-append t.items a) (
        λ n.
            ⊎_elim (λ q. Memᴰ.append_right (map key t.items) (Memᴰ.head q))
              (λ r. Memᴰ.append_left (key a ∷ []) ((h.keys k).0 r)) (Memᴰ.cases_cons n),
        λ n.
            ⊎_elim (λ r. Memᴰ.tail ((h.keys k).1 r)) (λ q. Memᴰ.head (Memᴰ.eq_of_singleton q))
              (Memᴰ.append_cases (map key t.items) n),
      );
      once = rw (map-append t.items a) (
          Distinct-append (map key t.items) (key a) h.once
            (λ n. not_mem_of_contains t.seen (key a) c ((h.keys (key a)).1 n)));
    })
  ]

  keep_all-Sound : (xs : List A) → Sound xs (keep_all xs)
  unfolding keep_all
  keep_all-Sound xs =
      foldl_inv (Sound xs) keep xs (λ t a m h. keep-Sound xs t a m h) _
        (record { from = λ a m. absurd (Memᴰ.not-nil m); keys = λ k. (λ m. m, λ m. m); once = tt })

  keep-seen : (t : Kept A K) (a : A) → Memᴰ (key a) (keep t a).seen
  unfolding keep
  keep-seen t a = elim (Bool-cases (contains t.seen (key a))) [
    | inl c ↦ rw c ((contains_iff t.seen (key a)).0 c)
    | inr c ↦ rw c (Memᴰ.head refl)
  ]

  keep-keeps : (k : K) (t : Kept A K) (a : A) → Memᴰ k t.seen → Memᴰ k (keep t a).seen
  unfolding keep
  keep-keeps k t a m = elim (Bool-cases (contains t.seen (key a))) [
    | inl c ↦ rw c m
    | inr c ↦ rw c (Memᴰ.tail m)
  ]

  pub keep_all-Memᴰ : (xs : List A) (a : A) → Memᴰ a (keep_all xs).items → Memᴰ a xs
  keep_all-Memᴰ xs a m = (keep_all-Sound xs).from a m

  pub keep_all-Distinct : (xs : List A) → Distinct (map key (keep_all xs).items)
  keep_all-Distinct xs = (keep_all-Sound xs).once

  pub keep_all-keys : (xs : List A) (a : A) → Memᴰ a xs → Memᴰ (key a) (map key (keep_all xs).items)
  unfolding keep_all
  keep_all-keys xs a m = ((keep_all-Sound xs).keys (key a)).0 (
      foldl_reaches (λ t. Memᴰ (key a) t.seen) keep a xs (λ t. keep-seen t a)
        (λ t b. keep-keeps (key a) t b) m _)
