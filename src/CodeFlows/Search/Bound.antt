-- ===== src/CodeFlows/Search/Bound.antt =====
-- The fuel of _shortest_method_path (application/code_flows.py) is enough: a method is queued once.
use mathlib.Core.List.Memᴰ
use systemlens.Prelude.{
  ℕ, zero, suc, ◌+◌, ◌≤◌, ◌≡◌, ◌≢◌, refl, ap, none, List, [], ◌∷◌, contains, not_mem_of_contains,
  foldl, foldl_inv, length, length-append, Memᴰ, Distinct, Bool-cases, inl, inr, arith,
}
use systemlens.Prelude.Pigeons.{length-le_of_mem}
use systemlens.Text.{Text, text_eq, text_beq}
use systemlens.CodeFlows.{CallGraphEdge}
use systemlens.CodeFlows.Search.Walks.{queue_cases}
use systemlens.CodeFlows.Search.{Route, Progress, extended, enqueue, search}

enqueue-size :
    (r : Route) (p : Progress) (e : CallGraphEdge)
    → length (enqueue r p e).visited + length p.queue
      ≡ length p.visited + length (enqueue r p e).queue
unfolding enqueue
enqueue-size r p e = elim (Bool-cases (contains p.visited e.callee_id)) [
  | inl c ↦ rw c refl
  | inr c ↦ rw c (omega (arith, length-append p.queue (extended r e ∷ [])))
]

enqueue_all-size :
    (r : Route) (es : List CallGraphEdge) (p : Progress)
    → length (foldl (enqueue r) p es).visited + length p.queue
      ≡ length p.visited + length (foldl (enqueue r) p es).queue
enqueue_all-size r [] p = refl
enqueue_all-size r (e ∷ es) p =
    omega (arith, enqueue-size r p e, enqueue_all-size r es (enqueue r p e))

-- The visited methods are different, and all from the list `known`.
record Within (known : List Text) (p : Progress) : Type 0 where
  pub once : Distinct p.visited
  pub from : (v : Text) → Memᴰ v p.visited → Memᴰ v known

enqueue-Within :
    (known : List Text) (r : Route) (p : Progress) (e : CallGraphEdge)
    → Memᴰ e.callee_id known
    → Within known p
    → Within known (enqueue r p e)
unfolding enqueue
enqueue-Within known r p e m h = elim (Bool-cases (contains p.visited e.callee_id)) [
  | inl c ↦ rw c h
  | inr c ↦ rw c (record {
    once = (not_mem_of_contains p.visited e.callee_id c, h.once);
    from = λ v n. elim (Memᴰ.cases_cons n) [ inl q ↦ Memᴰ.cast q m | inr k ↦ h.from v k ];
  })
]

module _ (next : Text → List CallGraphEdge) (target : Text) (known : List Text)
    (inside : (x : Text) (e : CallGraphEdge) → Memᴰ e (next x) → Memᴰ e.callee_id known) where
  pub search_ends :
      (fuel : ℕ) (p : Progress)
      → Distinct p.visited
      → ((v : Text) → Memᴰ v p.visited → Memᴰ v known)
      → suc (length known) + length p.queue ≤ fuel + length p.visited
      → search next target fuel p ≢ none
  unfolding search
  search_ends zero p d s h e = absurd (omega (arith, h, length-le_of_mem p.visited known d s))
  search_ends (suc fuel) p d s h e = elim (queue_cases p.queue) [
    | inl at ↦ cc (rw (at, search) at e)
    | inr (r, (rest, at)) ↦ elim (Bool-cases (text_beq r.at_method target)) [
      | inl t ↦ cc (rw (at, search, t) at e)
      | inr t ↦
          let q : Progress = record { queue = rest; visited = p.visited } in
          let all =
            foldl_inv (Within known) (enqueue r) (next r.at_method)
              (λ z x m. enqueue-Within known r z x (inside r.at_method x m)) q
              (record { once = d; from = s }) in
          search_ends fuel (foldl (enqueue r) q (next r.at_method)) all.once all.from
            (omega (arith, h, ap length at, enqueue_all-size r (next r.at_method) q))
            (rw (at, search, t) at e)
    ]
  ]
