-- ===== src/CodeFlows/Search/Walks.antt =====
-- Walks of the call graph, and one round of _shortest_method_path (application/code_flows.py).
use mathlib.Core.List.Memᴰ
use mathlib.Core.Logic.{⊎_elim}
use systemlens.Prelude.{
  ◌≡◌, ◌≢◌, refl, sym, ap, ◌∙◌, subst, List, [], ◌∷◌, ◌++◌, contains, contains_iff, foldl, map,
  Memᴰ, Bool-cases, inl, inr, ◌⊎◌,
}
use systemlens.Text.{Text, text_eq}
use systemlens.CodeFlows.{CallGraphEdge}
use systemlens.CodeFlows.Search.{Route, Progress, extended, enqueue}

module _ (next : Text → List CallGraphEdge) where
  -- The edges lead from one method to the other, each being followed at its place.
  abbrev pub Walk : Text → List CallGraphEdge → Text → Type 0
  Walk x [] y = x ≡ y
  Walk x (e ∷ es) y = Memᴰ e (next x) × Walk e.callee_id es y

  Walk-append :
      (x y : Text) (es : List CallGraphEdge) (e : CallGraphEdge)
      → Walk x es y
      → Memᴰ e (next y)
      → Walk x (es ++ e ∷ []) e.callee_id
  Walk-append x y [] e w m = (subst (λ z. Memᴰ e (next z)) (sym w) m, refl)
  Walk-append x y (d ∷ es) e w m = (w.0, Walk-append d.callee_id y es e w.1 m)

  -- A route of the queue is a walk from the start, with the methods that it visits.
  pub record IsRoute (start : Text) (r : Route) : Type 0 where
    pub walk : Walk start r.edge_path r.at_method
    pub methods : r.method_path ≡ start ∷ map (λ (e : CallGraphEdge). e.callee_id) r.edge_path

  callees_append :
      (es : List CallGraphEdge) (e : CallGraphEdge)
      → map (λ (x : CallGraphEdge). x.callee_id) (es ++ e ∷ [])
        ≡ map (λ (x : CallGraphEdge). x.callee_id) es ++ e.callee_id ∷ []
  callees_append [] e = refl
  callees_append (d ∷ es) e = cc (callees_append es e)

  pub extended-IsRoute :
      (start : Text) (r : Route) (e : CallGraphEdge)
      → IsRoute start r
      → Memᴰ e (next r.at_method)
      → IsRoute start (extended r e)
  extended-IsRoute start r e h m = record {
    walk = Walk-append start r.at_method r.edge_path e h.walk m;
    methods =
        ap (λ (z : List Text). z ++ e.callee_id ∷ []) h.methods
        ∙ ap (λ (z : List Text). start ∷ z) (sym (callees_append r.edge_path e));
  }

  -- Where a visited method is: in the queue, or behind it, with all that it leads to.
  pub record IsDone (target : Text) (p : Progress) (v : Text) : Type 0 where
    pub other : v ≢ target
    pub closed : (e : CallGraphEdge) → Memᴰ e (next v) → Memᴰ e.callee_id p.visited

  abbrev pub IsQueued : Progress → Text → Type 0
  IsQueued p v = (r : Route) × (Memᴰ r p.queue × (r.at_method ≡ v))

-- What one edge of a round does to the search.
enqueue-visited :
    (r : Route) (p : Progress) (e : CallGraphEdge) → Memᴰ e.callee_id (enqueue r p e).visited
unfolding enqueue
enqueue-visited r p e = elim (Bool-cases (contains p.visited e.callee_id)) [
  | inl c ↦ rw c ((contains_iff p.visited e.callee_id).0 c)
  | inr c ↦ rw c (Memᴰ.head refl)
]

pub enqueue-keeps :
    (r : Route) (p : Progress) (e : CallGraphEdge) (v : Text)
    → Memᴰ v p.visited
    → Memᴰ v (enqueue r p e).visited
unfolding enqueue
enqueue-keeps r p e v m = elim (Bool-cases (contains p.visited e.callee_id)) [
  | inl c ↦ rw c m
  | inr c ↦ rw c (Memᴰ.tail m)
]

pub enqueue-queue :
    (r : Route) (p : Progress) (e : CallGraphEdge) (x : Route)
    → Memᴰ x (enqueue r p e).queue
    → Memᴰ x p.queue ⊎ (x ≡ extended r e)
unfolding enqueue
enqueue-queue r p e x m = elim (Bool-cases (contains p.visited e.callee_id)) [
  | inl c ↦ inl (rw c at m)
  | inr c ↦ ⊎_elim inl (λ n. inr (Memᴰ.eq_of_singleton n)) (Memᴰ.append_cases p.queue (rw c at m))
]

pub enqueue-queued :
    (r : Route) (p : Progress) (e : CallGraphEdge) (x : Route)
    → Memᴰ x p.queue
    → Memᴰ x (enqueue r p e).queue
unfolding enqueue
enqueue-queued r p e x m = elim (Bool-cases (contains p.visited e.callee_id)) [
  | inl c ↦ rw c m
  | inr c ↦ rw c (Memᴰ.append_left (extended r e ∷ []) m)
]

pub enqueue-new :
    (r : Route) (p : Progress) (e : CallGraphEdge) (v : Text)
    → Memᴰ v (enqueue r p e).visited
    → Memᴰ v p.visited ⊎ ((x : Route) × (Memᴰ x (enqueue r p e).queue × (x.at_method ≡ v)))
unfolding enqueue
enqueue-new r p e v m = elim (Bool-cases (contains p.visited e.callee_id)) [
  | inl c ↦ inl (rw c at m)
  | inr c ↦
      ⊎_elim (λ q. inr (extended r e, (rw c (Memᴰ.append_right p.queue (Memᴰ.head refl)), sym q)))
        inl (Memᴰ.cases_cons {a = v} {b = e.callee_id} {l = p.visited} (rw c at m))
]

pub enqueue_all-keeps :
    (r : Route) (es : List CallGraphEdge) (p : Progress) (v : Text)
    → Memᴰ v p.visited
    → Memᴰ v (foldl (enqueue r) p es).visited
enqueue_all-keeps r [] p v m = m
enqueue_all-keeps r (e ∷ es) p v m =
    enqueue_all-keeps r es (enqueue r p e) v (enqueue-keeps r p e v m)

pub enqueue_all-visited :
    (r : Route) (es : List CallGraphEdge) (p : Progress) (e : CallGraphEdge)
    → Memᴰ e es
    → Memᴰ e.callee_id (foldl (enqueue r) p es).visited
enqueue_all-visited r [] p e m = absurd (Memᴰ.not-nil m)
enqueue_all-visited r (d ∷ es) p e m =
    ⊎_elim
      (λ q.
        enqueue_all-keeps r es (enqueue r p d) e.callee_id
          (Memᴰ.cast (ap (λ (z : CallGraphEdge). z.callee_id) q) (enqueue-visited r p d)))
      (enqueue_all-visited r es (enqueue r p d) e) (Memᴰ.cases_cons m)

pub queue_cases :
    (q : List Route) → (q ≡ []) ⊎ ((r : Route) × ((rest : List Route) × (q ≡ r ∷ rest)))
queue_cases [] = inl refl
queue_cases (r ∷ rest) = inr (r, (rest, refl))
