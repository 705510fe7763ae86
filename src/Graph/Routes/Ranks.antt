-- ===== src/Graph/Routes/Ranks.antt =====
-- The order of ranks, and the least rank of a group (domain/graph.py).
use mathlib.Core.List.Memᴰ
use mathlib.Core.Logic.{⊎_elim}
use systemlens.Prelude.{
  ◌≤◌, ◌≡◌, ◌≢◌, refl, sym, ap, ◌∙◌, subst, true, false, ◌||◌, List, [], ◌∷◌, if◌then◌else◌, leb,
  Memᴰ, Bool-cases, inl, inr, ◌⊎◌, arith,
}
use systemlens.Text.{Text}
use systemlens.Models.{MessageEndpoint}
use systemlens.Graph.Routes.{Rank, rank_leb, rank_beq, min_rank, ids_at, selected_ids}

pub rank_leb_refl : (a : Rank) → rank_leb a a ≡ true
unfolding rank_leb
rank_leb_refl a = ground arith

pub rank_beq_refl : (a : Rank) → rank_beq a a ≡ true
unfolding rank_beq
rank_beq_refl a = ground arith

pub rank_beq_eq : (a b : Rank) → rank_beq a b ≡ true → a ≡ b
unfolding rank_beq
rank_beq_eq a b h = ground arith

pub rank_leb_total : (a b : Rank) → rank_leb a b ≡ false → rank_leb b a ≡ true
unfolding rank_leb
rank_leb_total a b h = ground arith

pub rank_leb_trans :
    (a b c : Rank) → rank_leb a b ≡ true → rank_leb b c ≡ true → rank_leb a c ≡ true
unfolding rank_leb
rank_leb_trans a b c h k = ground arith

abbrev pub Ranked : Type 0
Ranked = List (Rank × MessageEndpoint)

min_rank-le-best : (best : Rank) (l : Ranked) → rank_leb (min_rank best l) best ≡ true
unfolding min_rank
min_rank-le-best best [] = rank_leb_refl best
min_rank-le-best best ((r, s) ∷ l) = elim (Bool-cases (rank_leb best r)) [
  | inl t ↦ rw t (min_rank-le-best best l)
  | inr t ↦
      rw t (rank_leb_trans (min_rank r l) r best (min_rank-le-best r l) (rank_leb_total best r t))
]

min_rank-le :
    (best : Rank) (l : Ranked) (r : Rank) (s : MessageEndpoint)
    → Memᴰ (r, s) l
    → rank_leb (min_rank best l) r ≡ true
unfolding min_rank
min_rank-le best [] r s m = absurd (Memᴰ.not-nil m)
min_rank-le best ((q, p) ∷ l) r s m =
    let best' = if rank_leb best q then best else q in
    let below : rank_leb best' q ≡ true = elim (Bool-cases (rank_leb best q)) [
      | inl t ↦ rw t t
      | inr t ↦ rw t (rank_leb_refl q)
    ] in
    ⊎_elim
      (λ e.
        subst (λ z. rank_leb (min_rank best' l) z ≡ true)
          (sym (ap (λ (u : Rank × MessageEndpoint). u.0) e))
          (rank_leb_trans (min_rank best' l) best' q (min_rank-le-best best' l) below))
      (min_rank-le best' l r s) (Memᴰ.cases_cons m)

-- The least rank is the first or that of an item.
min_rank_attained :
    (best : Rank) (l : Ranked)
    → (min_rank best l ≡ best) ⊎ ((serve : MessageEndpoint) × Memᴰ (min_rank best l, serve) l)
unfolding min_rank
min_rank_attained best [] = inl refl
min_rank_attained best ((r, s) ∷ l) = elim (Bool-cases (rank_leb best r)) [
  | inl t ↦ rw t (⊎_elim inl (λ (p, m). inr (p, Memᴰ.tail m)) (min_rank_attained best l))
  | inr t ↦ rw t (
      ⊎_elim (λ e. inr (s, Memᴰ.head (ap (λ (q : Rank). (q, s)) e)))
        (λ (p, m). inr (p, Memᴰ.tail m)) (min_rank_attained r l))
]

-- A candidate that needs a guess about the call.
abbrev pub Guesses : Rank → Type 0
Guesses r = 1 ≤ r.guessed

rank_leb-Guesses : (a b : Rank) → rank_leb a b ≡ true → Guesses a → Guesses b
unfolding rank_leb
rank_leb-Guesses a b h g = ground arith

ids_at_items :
    (best : Rank) (l : Ranked) (i : Text)
    → Memᴰ i (ids_at best l)
    → (r : Rank) × (s : MessageEndpoint) × Memᴰ (r, s) l × (s.id ≡ i) × (Guesses best ⊎ (r ≡ best))
unfolding ids_at
ids_at_items best [] i m = absurd (Memᴰ.not-nil m)
ids_at_items best ((r, s) ∷ l) i m = elim (Bool-cases (leb 1 best.guessed || rank_beq r best)) [
  | inl t ↦
      ⊎_elim
        (λ e. (
          r,
          s,
          Memᴰ.head refl,
          sym e,
          elim (Bool-cases (leb 1 best.guessed)) [
            | inl g ↦ inl (ground arith)
            | inr g ↦ inr (rank_beq_eq r best (ground arith))
          ],
        ))
        (λ n. let (q, p, k, e, w) = ids_at_items best l i n in (q, p, Memᴰ.tail k, e, w))
        (Memᴰ.cases_cons {a = i} {b = s.id} {l = ids_at best l} (rw t at m))
  | inr t ↦ let (q, p, k, e, w) = ids_at_items best l i (rw t at m) in (q, p, Memᴰ.tail k, e, w)
]

items_ids_at :
    (best : Rank) (l : Ranked) (r : Rank) (s : MessageEndpoint)
    → Memᴰ (r, s) l
    → r ≡ best
    → Memᴰ s.id (ids_at best l)
unfolding ids_at
items_ids_at best [] r s m e = absurd (Memᴰ.not-nil m)
items_ids_at best ((q, p) ∷ l) r s m e =
    ⊎_elim
      (λ h.
        let same : q ≡ best = sym (ap (λ (u : Rank × MessageEndpoint). u.0) h) ∙ e in
        let equal : rank_beq q best ≡ true =
          subst (λ z. rank_beq z best ≡ true) (sym same) (rank_beq_refl best) in
        let taken : (leb 1 best.guessed || rank_beq q best) ≡ true = ground arith in
        rw taken (Memᴰ.head (ap (λ (u : Rank × MessageEndpoint). u.1.id) h)))
      (λ n.
        let later = items_ids_at best l r s n e in
        elim (Bool-cases (leb 1 best.guessed || rank_beq q best)) [
          | inl t ↦ rw t (Memᴰ.tail later)
          | inr t ↦ rw t later
        ])
      (Memᴰ.cases_cons m)

-- A selected id is that of an item whose rank no item of the group beats, or every item guesses.
pub selected_ids-best :
    (l : Ranked) (i : Text)
    → Memᴰ i (selected_ids l)
    → (r : Rank) × (s : MessageEndpoint) × Memᴰ (r, s) l
      × (s.id ≡ i)
      × ((q : Rank) (t : MessageEndpoint) → Memᴰ (q, t) l → Guesses q ⊎ (rank_leb r q ≡ true))
unfolding selected_ids
selected_ids-best [] i m = absurd (Memᴰ.not-nil m)
selected_ids-best ((r0, s0) ∷ l) i m =
    let best = min_rank r0 l in
    let (r, s, k, e, w) = ids_at_items best ((r0, s0) ∷ l) i m in
    (
      r,
      s,
      k,
      e,
      λ q t n.
          let least : rank_leb best q ≡ true =
            ⊎_elim
              (λ h.
                subst (λ z. rank_leb best z ≡ true)
                  (sym (ap (λ (u : Rank × MessageEndpoint). u.0) h)) (min_rank-le-best r0 l))
              (min_rank-le r0 l q t) (Memᴰ.cases_cons n) in
          ⊎_elim (λ g. inl (rank_leb-Guesses best q least g))
            (λ h. inr (subst (λ z. rank_leb z q ≡ true) (sym h) least)) w,
    )

-- A group that is not empty selects one of its items.
pub selected_ids_nonempty :
    (l : Ranked)
    → l ≢ []
    → (r : Rank) × (s : MessageEndpoint) × Memᴰ (r, s) l × Memᴰ s.id (selected_ids l)
unfolding selected_ids
selected_ids_nonempty [] h = absurd (h refl)
selected_ids_nonempty ((r0, s0) ∷ l) h =
    let best = min_rank r0 l in
    let at_best = λ (s : MessageEndpoint) (m : Memᴰ (best, s) ((r0, s0) ∷ l)).
      items_ids_at best ((r0, s0) ∷ l) best s m refl in
    elim (min_rank_attained r0 l) [
      | inl e ↦ (
        best,
        s0,
        Memᴰ.head (ap (λ (q : Rank). (q, s0)) e),
        at_best s0 (Memᴰ.head (ap (λ (q : Rank). (q, s0)) e)),
      )
      | inr (s, m) ↦ (best, s, Memᴰ.tail m, at_best s (Memᴰ.tail m))
    ]
