-- ===== src/Graph/Edges/Emits.antt =====
-- The ways in which build_graph of domain/graph.py adds an edge, and the induction over its loops.
use systemlens.Prelude.{
  false, ◌||◌, not, none, some, List, [], ◌∷◌, ◌==◌, ◌≡◌, ◌≢◌, refl, contains, contains_iff, map,
  foldl_inv, Memᴰ, Bool-cases, Option-cases, inl, inr, pair_eq, arith,
}
use systemlens.Prelude.Dict.{keys, group}
use systemlens.Text.{Text, text_eq, text_beq_iff, codes}
use systemlens.Models.{MessageEndpoint, kafka, rest}
use systemlens.MessageTypes.{message_types_conflict}
use systemlens.Graph.Evidence.{configured_api_client_domain}
use systemlens.Graph.Targets.{external_microservice_name}
use systemlens.Graph.Routes.{select_matching_routes}
use systemlens.Graph.Edges.{GraphEdge, EdgeKey, Progress, emit}
use systemlens.Graph.Edges.Build.{
  Inputs, edge_of, key_of, calls_of, produces_of, consumes_by_topic, is_gateway_proxy,
  contract_target, effective_call, reach_route, serve_step, target_serves, reach_service,
  resolved_target, rest_step, resolved_configured_calls, configured_step, external_step,
  consume_step, produce_step, start, after_routes, after_configured, after_external, after_kafka,
}

pub text_ne : (a b : Text) → (a == b) ≡ false → a ≢ b
text_ne a b h e = cc ((text_beq_iff a b).1 e)

module _ (b : Inputs) where
  open b use {compile, rest_policy, endpoints_by_service as d}

  -- The ids of the routes that a resolved call selects in a service.
  abbrev pub selected_routes : MessageEndpoint → Text → List Text
  selected_routes caller to =
      map (λ s. s.id) (select_matching_routes compile caller.topic (target_serves b to))

  pub data Emits (k : EdgeKey) (e : GraphEdge) : Type 0 where
    contracted :
        (from to : Text) (caller served : MessageEndpoint)
        → Memᴰ (from, caller) (calls_of d)
        → contract_target b from caller ≡ some (to, served)
        → k ≡ key_of rest from to caller.id served.id
        → e ≡ edge_of rest from to caller (some served)
        → Emits k e
    routed :
        (from to : Text) (caller effective served : MessageEndpoint)
        → Memᴰ (from, caller) (calls_of d)
        → resolved_target b caller ≡ some to
        → from ≢ to
        → Memᴰ served (target_serves b to)
        → effective_call b (selected_routes caller to) caller served ≡ some effective
        → k ≡ key_of rest from to caller.id served.id
        → e ≡ edge_of rest from to effective (some served)
        → Emits k e
    configured :
        (from domain : Text) (caller : MessageEndpoint)
        → Memᴰ (from, caller) (calls_of d)
        → configured_api_client_domain caller ≡ some domain
        → Memᴰ domain (keys d)
        → from ≢ domain
        → k ≡ key_of rest from domain (codes "configured-api") []
        → e ≡ edge_of rest from domain caller none
        → Emits k e
    outside :
        (from name : Text) (caller : MessageEndpoint)
        → Memᴰ (from, caller) (calls_of d)
        → external_microservice_name rest_policy caller ≡ some name
        → from ≢ name
        → k ≡ key_of rest from name (codes "configured-external") []
        → e ≡ edge_of rest from name caller none
        → Emits k e
    messaged :
        (from to : Text) (producer consumer : MessageEndpoint)
        → Memᴰ (from, producer) (produces_of d)
        → producer.topic_dynamic ≡ false
        → Memᴰ (to, consumer) (group (consumes_by_topic d) producer.topic)
        → from ≢ to
        → message_types_conflict producer.message_type consumer.message_type ≡ false
        → k ≡ key_of kafka from to producer.id consumer.id
        → e ≡ edge_of kafka from to producer (some consumer)
        → Emits k e

  -- An invariant of the four loops.
  pub record Loops {ℓ} (P : Progress → Type ℓ) : Type ℓ where
    pub at_start : P start
    pub at_emit : (p : Progress) (k : EdgeKey) (e : GraphEdge) → Emits k e → P p → P (emit k e p)
    pub at_gateway :
        (p : Progress) (g : List (Text × Text)) → P p → P (record p { gateway_proxy_targets = g })

  module _ {ℓ} (P : Progress → Type ℓ) (l : Loops P) where
    open l use {at_start, at_emit, at_gateway}

    reach_route_inv :
        (from to : Text) (caller effective served : MessageEndpoint) (p : Progress)
        → Emits
            (key_of rest from to caller.id served.id)
            (edge_of rest from to effective (some served))
        → P p
        → P (reach_route b from to caller effective served p)
    unfolding reach_route
    reach_route_inv from to caller effective served p w h =
        elim (Bool-cases (is_gateway_proxy caller)) [
          | inl t ↦ elim (Bool-cases (contains p.gateway_proxy_targets (caller.id, to))) [
            | inl old ↦ rw (t, old) h
            | inr new ↦
                rw (t, new)
                  (at_emit _ _ _ w (at_gateway p ((caller.id, to) ∷ p.gateway_proxy_targets) h))
          ]
          | inr t ↦ rw t (at_emit p _ _ w h)
        ]

    reach_service_inv :
        (from to : Text) (caller : MessageEndpoint) (p : Progress)
        → Memᴰ (from, caller) (calls_of d)
        → resolved_target b caller ≡ some to
        → P p
        → P (reach_service b from caller to p)
    unfolding reach_service serve_step
    reach_service_inv from to caller p m r h = elim (Bool-cases (from == to)) [
      | inl t ↦ rw t h
      | inr t ↦ rw t (
          foldl_inv P (serve_step b (selected_routes caller to) from to caller) (target_serves b to)
            (λ q served n hq.
              elim (Option-cases (effective_call b (selected_routes caller to) caller served)) [
                | inl e ↦ rw (e, serve_step) hq
                | inr (effective, e) ↦
                    rw (e, serve_step)
                      (reach_route_inv from to caller effective served q
                        (routed from to caller effective served m r (text_ne from to t) n e refl
                          refl)
                        hq)
              ])
            p h)
    ]

    rest_step_inv :
        (p : Progress) (from : Text) (caller : MessageEndpoint)
        → Memᴰ (from, caller) (calls_of d)
        → P p
        → P (rest_step b p (from, caller))
    unfolding rest_step
    rest_step_inv p from caller m h = elim (Option-cases (contract_target b from caller)) [
      | inr ((to, served), e) ↦
          rw (e, rest_step) (at_emit p _ _ (contracted from to caller served m e refl refl) h)
      | inl e ↦ elim (Option-cases (resolved_target b caller)) [
        | inl r ↦ rw (e, rest_step) (rw (r) h)
        | inr (to, r) ↦ rw (e, rest_step) (rw (r) (reach_service_inv from to caller p m r h))
      ]
    ]

    configured_step_inv :
        (done : List (Text × Text)) (p : Progress) (from : Text) (caller : MessageEndpoint)
        → Memᴰ (from, caller) (calls_of d)
        → P p
        → P (configured_step b done p (from, caller))
    unfolding configured_step
    configured_step_inv done p from caller m h =
        elim (Option-cases (configured_api_client_domain caller)) [
          | inl e ↦ rw (e, configured_step) h
          | inr (domain, e) ↦
              let tests = not (contains (keys d) domain) || from == domain in
              elim (Bool-cases tests) [
                | inl t ↦ rw (e, configured_step) (rw t h)
                | inr t ↦ elim (Bool-cases (contains done (caller.id, domain))) [
                  | inl old ↦ rw (e, configured_step) (rw (t, old) h)
                  | inr new ↦
                      rw (e, configured_step)
                        (rw (t, new)
                          (at_emit p _ _
                            (configured from domain caller m e
                              ((contains_iff (keys d) domain).0 (ground arith))
                              (text_ne from domain (ground arith)) refl refl)
                            h))
                ]
              ]
        ]

    external_step_inv :
        (p : Progress) (from : Text) (caller : MessageEndpoint)
        → Memᴰ (from, caller) (calls_of d)
        → P p
        → P (external_step b p (from, caller))
    unfolding external_step
    external_step_inv p from caller m h =
        elim (Option-cases (external_microservice_name rest_policy caller)) [
          | inl e ↦ rw (e, external_step) h
          | inr (name, e) ↦ elim (Bool-cases (from == name)) [
            | inl t ↦ rw (e, external_step) (rw t h)
            | inr t ↦
                rw (e, external_step)
                  (rw t (
                    at_emit p _ _ (outside from name caller m e (text_ne from name t) refl refl) h))
          ]
        ]

    produce_step_inv :
        (p : Progress) (from : Text) (producer : MessageEndpoint)
        → Memᴰ (from, producer) (produces_of d)
        → P p
        → P (produce_step b p (from, producer))
    unfolding produce_step consume_step
    produce_step_inv p from producer m h = elim (Bool-cases producer.topic_dynamic) [
      | inl t ↦ simp t h
      | inr t ↦ simp t (
          foldl_inv P (consume_step b from producer) (group (consumes_by_topic d) producer.topic)
            (λ q (to, consumer) n hq.
              let clash = message_types_conflict producer.message_type consumer.message_type in
              elim (Bool-cases (from == to || clash)) [
                | inl s ↦ rw (s) hq
                | inr s ↦ rw (s) (
                    at_emit q _ _
                      (messaged from to producer consumer m t n (text_ne from to (ground arith))
                        (ground arith) refl refl)
                      hq)
              ])
            p h)
    ]

    -- What holds at the start and is kept by each added edge holds of the finished graph.
    pub build_graph_induction : P (after_kafka b)
    unfolding after_routes after_configured after_external after_kafka
    build_graph_induction =
        let routes =
          foldl_inv P (rest_step b) (calls_of d)
            (λ p (from, caller) m h. rest_step_inv p from caller m h) start at_start in
        let done = resolved_configured_calls b (after_routes b).edges in
        let configured_calls =
          foldl_inv P (configured_step b done) (calls_of d)
            (λ p (from, caller) m h. configured_step_inv done p from caller m h) (after_routes b)
            routes in
        let external_calls =
          foldl_inv P (external_step b) (calls_of d)
            (λ p (from, caller) m h. external_step_inv p from caller m h) (after_configured b)
            configured_calls in
        foldl_inv P (produce_step b) (produces_of d)
          (λ p (from, producer) m h. produce_step_inv p from producer m h) (after_external b)
          external_calls
