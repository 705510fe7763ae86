-- ===== src/Graph/Edges/Unique.antt =====
-- build_graph (domain/graph.py) adds no relation between two sites twice.
use mathlib.Core.List.Memᴰ
use mathlib.Core.Logic.{⊎_elim}
use systemlens.Prelude.{
  Option, none, some, List, [], ◌∷◌, ◌++◌, ◌≡◌, sym, ap, ◌∙◌, subst, contains, not_mem_of_contains,
  Memᴰ, Bool-cases, Distinct, Distinct-append, inl, inr, ◌⊎◌, arith, append-nil, append_assoc,
}
use systemlens.Text.{Text}
use systemlens.Models.{MessageEndpoint}
use systemlens.Graph.Edges.{GraphEdge, EdgeKey, key_eq, Progress, emit}
use systemlens.Graph.Edges.Build.{
  Inputs, key_of, resolved_configured_api_call, effective_call, build_graph,
}
use systemlens.Graph.Edges.Emits.{Emits, selected_routes, build_graph_induction}

-- What tells an edge between two sites apart: its kind, its services and the two ids.
key_with : GraphEdge → Option MessageEndpoint → List EdgeKey
key_with e none = []
key_with e (some served) =
    key_of e.kind e.from_service e.to_service e.from_endpoint.id served.id ∷ []

pub site_keys : List GraphEdge → List EdgeKey
unfolding key_with
site_keys [] = []
site_keys (e ∷ es) = key_with e e.to_endpoint ++ site_keys es

site_keys-append :
    (es : List GraphEdge) (e : GraphEdge)
    → site_keys (es ++ e ∷ []) ≡ site_keys es ++ key_with e e.to_endpoint
unfolding site_keys
site_keys-append [] e = append-nil (key_with e e.to_endpoint)
site_keys-append (x ∷ es) e =
    ap (λ ks. key_with x x.to_endpoint ++ ks) (site_keys-append es e)
    ∙ sym (append_assoc (key_with x x.to_endpoint) (site_keys es) (key_with e e.to_endpoint))

module _ (b : Inputs) where
  effective_call-id :
      (selected : List Text) (caller served effective : MessageEndpoint)
      → effective_call b selected caller served ≡ some effective
      → effective.id ≡ caller.id
  unfolding effective_call resolved_configured_api_call
  effective_call-id selected caller served effective h = ground arith

  -- An added edge has its own key, or no target site.
  Emits-key :
      (k : EdgeKey) (e : GraphEdge)
      → Emits b k e
      → (key_with e e.to_endpoint ≡ k ∷ []) ⊎ (key_with e e.to_endpoint ≡ [])
  unfolding key_with
  Emits-key k e (Emits.contracted from to caller served m c p q) = inl (rw (p, q))
  Emits-key k e (Emits.routed from to caller effective served m r n s f p q) =
      inl
        (rw (p, q) (rw (effective_call-id (selected_routes b caller to) caller served effective f)))
  Emits-key k e (Emits.configured from domain caller m c i n p q) = inr (rw q)
  Emits-key k e (Emits.outside from name caller m c n p q) = inr (rw q)
  Emits-key k e (Emits.messaged from to producer consumer m s n a c p q) = inl (rw (p, q))

  record AllSeen (p : Progress) : Type 0 where
    distinct : Distinct (site_keys p.edges)
    seen : (k : EdgeKey) → Memᴰ k (site_keys p.edges) → Memᴰ k p.seen

  AllSeen-emit :
      (p : Progress) (k : EdgeKey) (e : GraphEdge) → Emits b k e → AllSeen p → AllSeen (emit k e p)
  unfolding emit
  AllSeen-emit p k e w h = elim (Bool-cases (contains p.seen k)) [
    | inl t ↦ rw t h
    | inr t ↦ elim (Emits-key k e w) [
      | inl one ↦
          let keys : site_keys (p.edges ++ e ∷ []) ≡ site_keys p.edges ++ k ∷ [] =
            site_keys-append p.edges e ∙ ap (λ ks. site_keys p.edges ++ ks) one in
          rw t (record {
            distinct = subst Distinct (sym keys) (
                Distinct-append (site_keys p.edges) k h.distinct
                  (λ m. not_mem_of_contains p.seen k t (h.seen k m)));
            seen = λ j m.
                ⊎_elim (λ n. Memᴰ.tail (h.seen j n)) (λ n. Memᴰ.head (Memᴰ.eq_of_singleton n))
                  (Memᴰ.append_cases (site_keys p.edges) (subst (Memᴰ j) keys m));
          })
      | inr nil ↦
          let keys : site_keys (p.edges ++ e ∷ []) ≡ site_keys p.edges =
            site_keys-append p.edges e
            ∙ ap (λ ks. site_keys p.edges ++ ks) nil
            ∙ append-nil (site_keys p.edges) in
          rw t (record {
            distinct = subst Distinct (sym keys) h.distinct;
            seen = λ j m. Memᴰ.tail (h.seen j (subst (Memᴰ j) keys m));
          })
    ]
  ]

  -- No two edges of the graph that have a target site agree in their kind, their services and the
  -- ids of their two sites.
  pub build_graph-Distinct : Distinct (site_keys (build_graph b))
  unfolding build_graph
  build_graph-Distinct =
      let all = build_graph_induction b AllSeen (record {
        at_start =
            unfold site_keys in record { distinct = tt; seen = λ k m. absurd (Memᴰ.not-nil m) };
        at_emit = AllSeen-emit;
        at_gateway = λ p g h. record { distinct = h.distinct; seen = h.seen };
      }) in
      all.distinct
