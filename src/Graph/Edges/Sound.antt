-- ===== src/Graph/Edges/Sound.antt =====
-- What every edge of build_graph (domain/graph.py) means.
use mathlib.Core.List.Memᴰ
use mathlib.Core.Logic.{⊎_elim}
use systemlens.Prelude.{
  true, ◌&&◌, not, Option, none, some, List, [], ◌∷◌, ◌==◌, ◌≡◌, ◌≢◌, sym, subst, contains, dedup,
  filter, map, length, nat_beq, Memᴰ, Memᴰ-filter, Memᴰ-append, Bool-cases, Option-cases, inl, inr,
  ◌⊎◌, arith,
}
use systemlens.Prelude.Dict.{group}
use systemlens.Text.{Text, text_eq}
use systemlens.Models.{MessageEndpoint}
use systemlens.Graph.Paths.{paths_match}
use systemlens.Graph.Evidence.{openapi_contract_evidence}
use systemlens.Graph.Edges.{GraphEdge, EdgeKey, key_eq, Progress, emit}
use systemlens.Graph.Edges.Build.{
  Inputs, Sited, serves_by_contract, single_target, contract_target, build_graph,
}
use systemlens.Graph.Edges.Emits.{
  Emits, Emits.contracted, Emits.routed, Emits.configured, Emits.outside, Emits.messaged,
  build_graph_induction, text_ne,
}

single_target_first :
    (targets : List Sited) (t : Sited) → single_target targets ≡ some t → Memᴰ t targets
unfolding single_target
single_target_first [] t h = cc
single_target_first (x ∷ targets) t h =
    elim (Bool-cases (nat_beq (length (dedup (map (λ s. s.0) (x ∷ targets)))) 1)) [
      | inl e ↦ Memᴰ.head (sym (some_inj (rw e at h)))
      | inr e ↦ absurd (none_some (rw e at h))
    ]
  where
    some_inj : some x ≡ some t → x ≡ t
    some_inj p = cc

    none_some : none ≡ some t → ⊥
    none_some p = cc

module _ (b : Inputs) where
  open b use {compile, endpoints_by_service as d}

  -- A contract decides for another service that serves the contract and matches the call.
  pub contract_target_sound :
      (from to : Text) (caller served : MessageEndpoint)
      → contract_target b from caller ≡ some (to, served)
      → (from ≢ to)
        × (paths_match compile caller.topic served.topic ≡ true)
        × ((contract : Text) × ((openapi_contract_evidence caller ≡ some contract)
              × Memᴰ (to, served) (group (serves_by_contract d) contract)))
  unfolding contract_target
  contract_target_sound from to caller served h =
      elim (Option-cases (openapi_contract_evidence caller)) [
        | inl e ↦ absurd (no (rw (e, contract_target) at h))
        | inr (contract, e) ↦
            let test =
              λ (s : Sited). not (s.0 == from) && paths_match compile caller.topic s.1.topic in
            let offered = group (serves_by_contract d) contract in
            let picked : single_target (filter test offered) ≡ some (to, served) =
              rw (e, contract_target) at h in
            let (m, t) =
              (Memᴰ-filter test (to, served) offered).0
                (single_target_first (filter test offered) (to, served) picked) in
            (λ q. text_ne to from (ground arith) (sym q), ground arith, (contract, (e, m)))
      ]
    where
      no : ◌≡◌ {A = Option Sited} none (some (to, served)) → ⊥
      no p = cc

  Emits-apart : (k : EdgeKey) (e : GraphEdge) → Emits b k e → e.from_service ≢ e.to_service
  Emits-apart k e (contracted from to caller served m c p q) =
      rw q (contract_target_sound from to caller served c).0
  Emits-apart k e (routed from to caller effective served m r n s f p q) = rw q n
  Emits-apart k e (configured from domain caller m c i n p q) = rw q n
  Emits-apart k e (outside from name caller m c n p q) = rw q n
  Emits-apart k e (messaged from to producer consumer m s n a c p q) = rw q a

  emit-edges :
      (k : EdgeKey) (e : GraphEdge) (p : Progress) (x : GraphEdge)
      → Memᴰ x (emit k e p).edges
      → Memᴰ x p.edges ⊎ (x ≡ e)
  unfolding emit
  emit-edges k e p x m = elim (Bool-cases (contains p.seen k)) [
    | inl t ↦ inl (rw t at m)
    | inr t ↦
        ⊎_elim inl (λ one. inr (Memᴰ.eq_of_singleton one))
          ((Memᴰ-append x p.edges (e ∷ [])).0 (rw t at m))
  ]

  -- Every edge of the graph was added by one of the five rules.
  pub build_graph-Emits : (e : GraphEdge) → Memᴰ e (build_graph b) → (k : EdgeKey) × Emits b k e
  unfolding build_graph
  build_graph-Emits =
      build_graph_induction b (λ p. (e : GraphEdge) → Memᴰ e p.edges → (k : EdgeKey) × Emits b k e)
        (record {
          at_start = λ e m. absurd (Memᴰ.not-nil m);
          at_emit = λ p k e w h x m.
              ⊎_elim (h x) (λ q. (k, subst (Emits b k) (sym q) w)) (emit-edges k e p x m);
          at_gateway = λ p g h. h;
        })

  -- No edge of the graph leads from a service to itself.
  pub build_graph_apart : (e : GraphEdge) → Memᴰ e (build_graph b) → e.from_service ≢ e.to_service
  build_graph_apart e m = let (k, w) = build_graph-Emits e m in Emits-apart k e w
