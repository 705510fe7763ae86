-- ===== src/Models/UniqueIds/Laws.antt =====
-- The loop that disambiguates ids ends, and its ids are different.
use mathlib.Core.List.Memᴰ
use mathlib.Core.Logic.{⊎_elim}
use systemlens.Prelude.{
  ℕ, zero, suc, ◌≤◌, ◌≡◌, ◌≢◌, refl, sym, ap, ◌∙◌, true, false, none, some, List, [], ◌∷◌, ◌++◌,
  contains, contains_iff, not_mem_of_contains, length, length-append, map, Memᴰ, Distinct,
  Bool-cases, Option-cases, inl, inr, ◌⊎◌, arith,
}
use systemlens.Prelude.Pigeons.{length-le_of_mem}
use systemlens.Text.{Text, text_eq, codes}
use systemlens.Text.Decimal.{decimal, decimal_injective}
use systemlens.Models.UniqueIds.{
  Identified, numbered, free_id, hashed, chosen_id, renamed, ensure_unique_from, ensure_unique_ids,
}

append_cancel : (xs ys zs : Text) → xs ++ ys ≡ xs ++ zs → ys ≡ zs
append_cancel [] ys zs e = e
append_cancel (x ∷ xs) ys zs e = append_cancel xs ys zs (cc)

numbered_injective : (base : Text) (m n : ℕ) → numbered base m ≡ numbered base n → m ≡ n
unfolding numbered
numbered_injective base m n e = decimal_injective m n (
    append_cancel (codes "-") (decimal m) (decimal n)
      (append_cancel base (codes "-" ++ decimal m) (codes "-" ++ decimal n) e))

numbered_ne : (base : Text) (n : ℕ) → base ≢ numbered base n
unfolding numbered
numbered_ne base n e =
    absurd (omega (arith, length-append base (codes "-" ++ decimal n), ap length e))

-- The candidates that the search tries.
tried : Text → ℕ → ℕ → Text → List Text
tried base zero collision candidate = candidate ∷ []
tried base (suc fuel) collision candidate =
    candidate ∷ tried base fuel (suc collision) (numbered base collision)

length-tried :
    (base : Text) (fuel collision : ℕ) (candidate : Text)
    → length (tried base fuel collision candidate) ≡ suc fuel
unfolding tried
length-tried base zero collision candidate = refl
length-tried base (suc fuel) collision candidate =
    ap suc (length-tried base fuel (suc collision) (numbered base collision))

tried_forms :
    (base : Text) (fuel collision : ℕ) (candidate t : Text)
    → Memᴰ t (tried base fuel collision candidate)
    → (t ≡ candidate) ⊎ ((n : ℕ) × ((collision ≤ n) × (t ≡ numbered base n)))
unfolding tried
tried_forms base zero collision candidate t m = inl (Memᴰ.eq_of_singleton m)
tried_forms base (suc fuel) collision candidate t m =
    ⊎_elim inl
      (λ k.
        ⊎_elim (λ e. inr (collision, (omega arith, e))) (λ (n, (h, e)). inr (n, (omega arith, e)))
          (tried_forms base fuel (suc collision) (numbered base collision) t k))
      (Memᴰ.cases_cons m)

Distinct-tried :
    (base : Text) (fuel collision : ℕ) (candidate : Text)
    → ((n : ℕ) → collision ≤ n → candidate ≢ numbered base n)
    → Distinct (tried base fuel collision candidate)
unfolding tried
Distinct-tried base zero collision candidate h = (Memᴰ.not-nil, tt)
Distinct-tried base (suc fuel) collision candidate h = (
  λ m.
      ⊎_elim (h collision (omega arith)) (λ (n, (l, e)). h n (omega arith) e)
        (tried_forms base fuel (suc collision) (numbered base collision) candidate m),
  Distinct-tried base fuel (suc collision) (numbered base collision)
      (λ n l e. absurd (omega (arith, numbered_injective base collision n e))),
)

free_id_tried :
    (used : List Text) (base : Text) (fuel collision : ℕ) (candidate : Text)
    → free_id used base fuel collision candidate ≡ none
    → (t : Text) → Memᴰ t (tried base fuel collision candidate)
    → Memᴰ t used
unfolding free_id tried
free_id_tried used base zero collision candidate h t m =
    Memᴰ.cast (Memᴰ.eq_of_singleton m) ((contains_iff used candidate).0 (ground arith))
free_id_tried used base (suc fuel) collision candidate h t m =
    let hit : contains used candidate ≡ true = ground arith in
    ⊎_elim (λ e. Memᴰ.cast e ((contains_iff used candidate).0 hit))
      (free_id_tried used base fuel (suc collision) (numbered base collision) (ground arith) t)
      (Memᴰ.cases_cons m)

pub free_id_free :
    (used : List Text) (base : Text) (fuel collision : ℕ) (candidate t : Text)
    → free_id used base fuel collision candidate ≡ some t
    → ¬ Memᴰ t used
unfolding free_id
free_id_free used base zero collision candidate t h = not_mem_of_contains used t (ground arith)
free_id_free used base (suc fuel) collision candidate t h =
    elim (Bool-cases (contains used candidate)) [
      | inl e ↦
          free_id_free used base fuel (suc collision) (numbered base collision) t (ground arith)
      | inr e ↦ not_mem_of_contains used t (ground arith)
    ]

-- As many further candidates as used ids are enough.
pub free_id_total : (used : List Text) (base : Text) → free_id used base (length used) 2 base ≢ none
free_id_total used base h = absurd (
    omega (
      arith,
      length-tried base (length used) 2 base,
      length-le_of_mem (tried base (length used) 2 base) used
          (Distinct-tried base (length used) 2 base (λ n l. numbered_ne base n))
          (free_id_tried used base (length used) 2 base h),
    ))

module _ {A : Type 0} (i : Identified A) where
  open i use {id, with_id, id-with_id}

  chosen_id_total :
      (used : List Text) (a : A) → (t : Text) × ((chosen_id i used a ≡ some t) × (¬ Memᴰ t used))
  unfolding chosen_id
  chosen_id_total used a = elim (Bool-cases (contains used (id a))) [
    | inl e ↦ elim (Option-cases (free_id used (hashed i a) (length used) 2 (hashed i a))) [
      | inl stop ↦ absurd (free_id_total used (hashed i a) stop)
      | inr (t, found) ↦
          (t, (rw e found, free_id_free used (hashed i a) (length used) 2 (hashed i a) t found))
    ]
    | inr e ↦ (id a, (rw e, not_mem_of_contains used (id a) e))
  ]

  chosen-renamed :
      (used : List Text) (a : A) (t : Text)
      → chosen_id i used a ≡ some t
      → id (renamed i used a t) ≡ t
  unfolding chosen_id renamed
  chosen-renamed used a t h = elim (Bool-cases (contains used (id a))) [
    | inl e ↦ rw e (id-with_id t a)
    | inr e ↦ rw e (some_inj (rw e at h))
  ]
    where
      some_inj : some (id a) ≡ some t → id a ≡ t
      some_inj p = cc

  -- Each item is the old one, or the old one under another id.
  abbrev pub Renamed : List A → List A → Type 0
  Renamed [] [] = Unit
  Renamed [] (b ∷ bs) = ⊥
  Renamed (a ∷ as') [] = ⊥
  Renamed (a ∷ as') (b ∷ bs) = ((b ≡ a) ⊎ ((t : Text) × (b ≡ with_id t a))) × Renamed as' bs

  renamed_or :
      (used : List Text) (a : A) (t : Text)
      → (renamed i used a t ≡ a) ⊎ ((s : Text) × (renamed i used a t ≡ with_id s a))
  unfolding renamed
  renamed_or used a t = elim (Bool-cases (contains used (id a))) [
    | inl e ↦ inr (t, rw e)
    | inr e ↦ inl (rw e)
  ]

  ensure_from_total :
      (used : List Text) (items : List A)
      → (r : List A) × ((ensure_unique_from i used items ≡ some r)
          × (Renamed items r
              × (Distinct (map id r) × ((t : Text) → Memᴰ t (map id r) → ¬ Memᴰ t used))))
  unfolding ensure_unique_from
  ensure_from_total used [] = ([], (refl, (tt, (tt, λ t m. absurd (Memᴰ.not-nil m)))))
  ensure_from_total used (a ∷ items) =
      let (t, (c, free)) = chosen_id_total used a in
      let (r, (e, (same, (d, fresh)))) = ensure_from_total (t ∷ used) items in
      let is_t = chosen-renamed used a t c in
      (
        renamed i used a t ∷ r,
        (
          rw (c, ensure_unique_from) (rw e),
          (
            (renamed_or used a t, same),
            (
              (λ m. fresh t (Memᴰ.cast (sym is_t) m) (Memᴰ.head refl), d),
              λ s m.
                  ⊎_elim (λ q n. free (Memᴰ.cast (sym (q ∙ is_t)) n))
                    (λ k n. fresh s k (Memᴰ.tail n)) (Memᴰ.cases_cons m),
            ),
          ),
        ),
      )

  -- The loop always ends with a list: each item is kept, at most under another id, in its place,
  -- and the ids are pairwise different.
  pub ensure_unique_total :
      (items : List A)
      → (r : List A) × ((ensure_unique_ids i items ≡ some r)
          × (Renamed items r × Distinct (map id r)))
  unfolding ensure_unique_ids
  ensure_unique_total items =
      let (r, (e, (same, (d, fresh)))) = ensure_from_total [] items in (r, (e, (same, d)))

  chosen_new :
      (used : List Text) (a : A) → contains used (id a) ≡ false → chosen_id i used a ≡ some (id a)
  unfolding chosen_id
  chosen_new used a h = rw h

  renamed_new :
      (used : List Text) (a : A) (t : Text) → contains used (id a) ≡ false → renamed i used a t ≡ a
  unfolding renamed
  renamed_new used a t h = rw h

  ensure_from_same :
      (used : List Text) (items : List A)
      → Distinct (map id items)
      → ((t : Text) → Memᴰ t (map id items) → ¬ Memᴰ t used)
      → ensure_unique_from i used items ≡ some items
  unfolding ensure_unique_from
  ensure_from_same used [] d fresh = refl
  ensure_from_same used (a ∷ items) d fresh =
      let new : contains used (id a) ≡ false = elim (Bool-cases (contains used (id a))) [
        | inl e ↦ absurd (fresh (id a) (Memᴰ.head refl) ((contains_iff used (id a)).0 e))
        | inr e ↦ e
      ] in
      let rest = ensure_from_same (id a ∷ used) items d.1 (λ t m n.
        ⊎_elim (λ q. d.0 (Memᴰ.cast (sym q) m)) (fresh t (Memᴰ.tail m)) (Memᴰ.cases_cons n)) in
      rw (chosen_new used a new, ensure_unique_from) (rw (rest, renamed_new used a (id a) new))

  -- Items whose ids are already different are left as they are.
  pub ensure_unique_same :
      (items : List A) → Distinct (map id items) → ensure_unique_ids i items ≡ some items
  unfolding ensure_unique_ids
  ensure_unique_same items d = ensure_from_same [] items d (λ t m. Memᴰ.not-nil)
