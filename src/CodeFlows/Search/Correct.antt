-- ===== src/CodeFlows/Search/Correct.antt =====
-- What _shortest_method_path (application/code_flows.py) answers.
use mathlib.Core.List.Memᴰ
use mathlib.Core.Logic.{⊎_elim}
use systemlens.Prelude.{
  ℕ, zero, suc, ◌≡◌, ◌≢◌, refl, sym, ap, ◌∙◌, subst, Option, none, some, List, [], ◌∷◌, foldl,
  foldl_inv, map, length, Memᴰ, Memᴰ-filter, Bool-cases, Option-cases, inl, inr, ◌⊎◌, arith,
}
use systemlens.Prelude.Dict.{group}
use systemlens.Prelude.Groups.{item_of_group}
use systemlens.Text.{Text, text_eq, text_beq, text_beq_iff}
use systemlens.Text.Order.{sort, Memᴰ-sort}
use systemlens.CodeFlows.{CallGraphEdge}
use systemlens.CodeFlows.Search.{
  Methods, Adjacency, Route, Progress, enqueue, search, begin, callees_of, edge_leb,
  call_graph_edge_allowed, outgoing, shortest_method_path,
}
use systemlens.CodeFlows.Search.Walks.{
  queue_cases, Walk, IsRoute, IsDone, IsQueued, extended-IsRoute, enqueue-queue, enqueue-queued,
  enqueue-new, enqueue_all-visited, enqueue_all-keeps,
}
use systemlens.CodeFlows.Search.Bound.{search_ends}

enqueue_all-queued :
    (r : Route) (es : List CallGraphEdge) (p : Progress) (x : Route)
    → Memᴰ x p.queue
    → Memᴰ x (foldl (enqueue r) p es).queue
enqueue_all-queued r [] p x m = m
enqueue_all-queued r (e ∷ es) p x m =
    enqueue_all-queued r es (enqueue r p e) x (enqueue-queued r p e x m)

enqueue_all-new :
    (r : Route) (es : List CallGraphEdge) (p : Progress) (v : Text)
    → Memᴰ v (foldl (enqueue r) p es).visited
    → Memᴰ v p.visited ⊎ ((x : Route) × (Memᴰ x (foldl (enqueue r) p es).queue × (x.at_method ≡ v)))
enqueue_all-new r [] p v m = inl m
enqueue_all-new r (e ∷ es) p v m =
    ⊎_elim
      (λ n.
        ⊎_elim inl (λ (x, (k, q)). inr (x, (enqueue_all-queued r es (enqueue r p e) x k, q)))
          (enqueue-new r p e v n))
      inr (enqueue_all-new r es (enqueue r p e) v m)

module _ (next : Text → List CallGraphEdge) (start target : Text) where
  -- What holds before each round of the search.
  record Searching (p : Progress) : Type 0 where
    pub routes : (r : Route) → Memᴰ r p.queue → IsRoute next start r
    pub begun : Memᴰ start p.visited
    pub placed : (v : Text) → Memᴰ v p.visited → IsQueued next p v ⊎ IsDone next target p v

  -- What the search may answer: a walk from the start to the target with its methods, or none where
  -- no walk leads there.
  abbrev pub Answers : Option Route → Type 0
  Answers none = (es : List CallGraphEdge) → ¬ Walk next start es target
  Answers (some r) = (r.at_method ≡ target) × IsRoute next start r

  abbrev after : Progress → Route → List Route → Progress
  after p r rest =
      foldl (enqueue r) (record { queue = rest; visited = p.visited }) (next r.at_method)

  routes-after :
      (p : Progress) (r : Route) (rest : List Route)
      → IsRoute next start r
      → ((x : Route) → Memᴰ x rest → IsRoute next start x)
      → (x : Route) → Memᴰ x (after p r rest).queue
      → IsRoute next start x
  routes-after p r rest h all =
      foldl_inv (λ (z : Progress). (x : Route) → Memᴰ x z.queue → IsRoute next start x) (enqueue r)
        (next r.at_method)
        (λ z e m k x n.
          ⊎_elim (k x)
            (λ q. subst (IsRoute next start) (sym q) (extended-IsRoute next start r e h m))
            (enqueue-queue r z e x n))
        (record { queue = rest; visited = p.visited }) all

  Searching-after :
      (p : Progress) (r : Route) (rest : List Route)
      → p.queue ≡ r ∷ rest
      → r.at_method ≢ target
      → Searching p
      → Searching (after p r rest)
  Searching-after p r rest at off h =
      let q : Progress = record { queue = rest; visited = p.visited } in
      let es = next r.at_method in
      record {
        routes =
            routes-after p r rest (h.routes r (subst (Memᴰ r) (sym at) (Memᴰ.head refl)))
              (λ x m. h.routes x (subst (Memᴰ x) (sym at) (Memᴰ.tail m)));
        begun = enqueue_all-keeps r es q start h.begun;
        placed = λ v m.
            ⊎_elim (λ old. ⊎_elim (waiting v) (λ done. inr (still v done)) (h.placed v old)) inl
              (enqueue_all-new r es q v m);
      }
    where
      still : (v : Text) → IsDone next target p v → IsDone next target (after p r rest) v
      still v done = record {
        other = done.other;
        closed = λ e m. enqueue_all-keeps r (next r.at_method) _ e.callee_id (done.closed e m);
      }

      waiting :
          (v : Text)
          → IsQueued next p v
          → IsQueued next (after p r rest) v ⊎ IsDone next target (after p r rest) v
      waiting v (x, (m, e)) =
          ⊎_elim
            (λ same.
              let here : r.at_method ≡ v = ap (λ (z : Route). z.at_method) (sym same) ∙ e in
              inr (
                subst (IsDone next target (after p r rest)) here (record {
                  other = off;
                  closed = λ d n. enqueue_all-visited r (next r.at_method) _ d n;
                })))
            (λ k. inl (x, (enqueue_all-queued r (next r.at_method) _ x k, e)))
            (Memᴰ.cases_cons (subst (Memᴰ x) at m))

  -- Where nothing is queued, no walk from a visited method leads to the target.
  not-Walk :
      (p : Progress)
      → ((v : Text) → Memᴰ v p.visited → IsDone next target p v)
      → (x : Text) (es : List CallGraphEdge) → Memᴰ x p.visited
      → ¬ Walk next x es target
  not-Walk p h x [] m w = (h x m).other w
  not-Walk p h x (e ∷ es) m w = not-Walk p h e.callee_id es ((h x m).closed e w.0) w.1

  search-Answers :
      (fuel : ℕ) (p : Progress) (answer : Option Route)
      → Searching p
      → search next target fuel p ≡ some answer
      → Answers answer
  unfolding search
  search-Answers zero p answer h e = cc
  search-Answers (suc fuel) p answer h e = elim (queue_cases p.queue) [
    | inl at ↦
        let is : none ≡ answer = cc (rw (at, search) at e) in
        subst Answers is (λ es.
          not-Walk p
            (λ v m.
              ⊎_elim (λ (x, (n, k)). absurd (Memᴰ.not-nil (subst (Memᴰ x) at n))) (λ d. d)
                (h.placed v m))
            start es h.begun)
    | inr (r, (rest, at)) ↦ elim (Bool-cases (text_beq r.at_method target)) [
      | inl t ↦
          let is : some r ≡ answer = cc (rw (at, search, t) at e) in
          subst Answers is (
            (text_beq_iff r.at_method target).0 t,
            h.routes r (subst (Memᴰ r) (sym at) (Memᴰ.head refl)),
          )
      | inr t ↦
          search-Answers fuel (after p r rest) answer
            (Searching-after p r rest at (λ q. cc ((text_beq_iff r.at_method target).1 q)) h)
            (rw (at, search, t) at e)
    ]
  ]

callees_of-Memᴰ :
    (adjacency : Adjacency) (id : Text) (edges : List CallGraphEdge) (e : CallGraphEdge)
    → Memᴰ (id, edges) adjacency
    → Memᴰ e edges
    → Memᴰ e.callee_id (callees_of adjacency)
callees_of-Memᴰ [] id edges e m n = absurd (Memᴰ.not-nil m)
callees_of-Memᴰ ((j, es) ∷ adjacency) id edges e m n =
    ⊎_elim
      (λ q. Memᴰ.append_left (callees_of adjacency) (
        Memᴰ.map (λ (x : CallGraphEdge). x.callee_id)
          (subst (Memᴰ e) (ap (λ (z : Text × List CallGraphEdge). z.1) q) n)))
      (λ k.
        Memᴰ.append_right (map (λ (x : CallGraphEdge). x.callee_id) es)
          (callees_of-Memᴰ adjacency id edges e k n))
      (Memᴰ.cases_cons m)

outgoing_known :
    (methods : Methods) (adjacency : Adjacency) (entry x : Text) (e : CallGraphEdge)
    → Memᴰ e (outgoing methods adjacency entry x)
    → Memᴰ e.callee_id (callees_of adjacency)
unfolding outgoing
outgoing_known methods adjacency entry x e m =
    let (n, t) =
      (Memᴰ-filter (call_graph_edge_allowed methods adjacency entry) e
          (sort edge_leb (group adjacency x))).0
        m in
    let k = (Memᴰ-sort edge_leb e (group adjacency x)).0 n in
    callees_of-Memᴰ adjacency x (group adjacency x) e (item_of_group adjacency x e k) k

-- The search always ends with an answer: a walk of allowed edges of the call graph from the start to
-- the target, with the methods on it, or none where no such walk leads from the one to the other.
pub shortest_path_Answers :
    (methods : Methods) (adjacency : Adjacency) (entry start target : Text)
    → (answer : Option Route) × ((shortest_method_path methods adjacency entry start target
          ≡ some answer)
        × Answers (outgoing methods adjacency entry) start target answer)
unfolding shortest_method_path
shortest_path_Answers methods adjacency entry start target =
    let next = outgoing methods adjacency entry in
    let fuel = suc (suc (length (callees_of adjacency))) in
    elim (Option-cases (search next target fuel (begin start))) [
      | inl e ↦ absurd (
          search_ends next target (start ∷ callees_of adjacency)
            (λ x d m. Memᴰ.tail (outgoing_known methods adjacency entry x d m)) fuel (begin start)
            (Memᴰ.not-nil, tt) (λ v m. Memᴰ.head (Memᴰ.eq_of_singleton m)) (omega arith) e)
      | inr (answer, e) ↦ (
        answer,
        (
          e,
          search-Answers next start target fuel (begin start) answer
              (record {
                routes = λ r m.
                    subst (IsRoute next start) (sym (Memᴰ.eq_of_singleton m))
                      (record { walk = refl; methods = refl });
                begun = Memᴰ.head refl;
                placed = λ v m. inl (_, (Memᴰ.head refl, sym (Memᴰ.eq_of_singleton m)));
              })
              e,
        ),
      )
    ]
