-- ===== src/Graph/Edges/Build.antt =====
-- build_graph of domain/graph.py: its indexes, its four loops and their composition. The
-- endpoints come as a dict from service to endpoints; `compile` is Python's `re`.
use systemlens.Prelude.{
  Bool, true, false, ◌&&◌, ◌||◌, not, Option, none, some, List, [], ◌∷◌, ◌++◌, if◌then◌else◌, ◌==◌,
  contains, filter, map, foldl, dedup, length, nat_beq, pair_eq,
}
use systemlens.Prelude.Dict.{Dict, keys, group, group_all, push}
use systemlens.Text.{Text, text_eq, codes, starts_with}
use systemlens.Text.Order.{sort, text_leb}
use systemlens.Models.{MessageEndpoint, kafka, rest, produce, consume, serve, call}
use systemlens.MessageTypes.{message_types_conflict}
use systemlens.Graph.Paths.{Compile, paths_match, http_methods_match}
use systemlens.Graph.Evidence.{
  openapi_contract_evidence, configured_api_client_domain, is_configured_api_client_call,
}
use systemlens.Graph.Targets.{
  RestTargetPolicy, RestTargetResolution, Status, external_microservice_name,
  resolve_rest_target_service,
}
use systemlens.Graph.Routes.{select_matching_routes}
use systemlens.Graph.Edges.{GraphEdge, EdgeKey, Progress, emit}

abbrev pub Endpoints : Type 0
Endpoints = Dict Text (List MessageEndpoint)

abbrev pub Sited : Type 0
Sited = Text × MessageEndpoint

-- _resolved_configured_api_call
unfoldable pub resolved_configured_api_call :
    MessageEndpoint → MessageEndpoint → Option MessageEndpoint
resolved_configured_api_call caller served =
    if not caller.topic_dynamic
      || not (is_configured_api_client_call caller)
      || not (http_methods_match caller.topic served.topic)
    then none
    else some (record caller { topic = served.topic; topic_dynamic = false })

-- group_endpoints_by_module
unfoldable pub group_endpoints_by_module : Endpoints → List MessageEndpoint → Endpoints
group_endpoints_by_module grouped [] = grouped
group_endpoints_by_module grouped (e ∷ endpoints) =
    group_endpoints_by_module
      (elim e.in_module [ none ↦ grouped | some name ↦ push grouped name e ]) endpoints

-- [(service, endpoint) for service, endpoints in ... for endpoint in endpoints]
unfoldable pub all_endpoints : Endpoints → List Sited
all_endpoints [] = []
all_endpoints ((service, endpoints) ∷ d) = map (λ e. (service, e)) endpoints ++ all_endpoints d

unfoldable pub is_rest : Text → Sited → Bool
is_rest role (service, e) = e.system == rest && e.role == role

unfoldable pub calls_of : Endpoints → List Sited
unfolding is_rest
calls_of d = filter (is_rest call) (all_endpoints d)

unfoldable pub serves_by_service : Endpoints → Endpoints
unfolding is_rest
serves_by_service d = group_all (λ s. s.0) (λ s. s.1) [] (filter (is_rest serve) (all_endpoints d))

is_openapi : Option Text → Bool
is_openapi none = false
is_openapi (some framework) = framework == codes "openapi"

-- {endpoint.path, *([declared] if declared else [])}
served_contracts : MessageEndpoint → List Text
served_contracts e = dedup (
    e.path
    ∷ elim (openapi_contract_evidence e) [ none ↦ [] | some [] ↦ [] | some (c ∷ s) ↦ (c ∷ s) ∷ [] ])

contract_items : List Sited → List (Text × Sited)
contract_items [] = []
contract_items ((service, e) ∷ rest) =
    map (λ contract. (contract, (service, e))) (served_contracts e) ++ contract_items rest

unfoldable pub serves_by_contract : Endpoints → Dict Text (List Sited)
unfolding contract_items served_contracts is_openapi
serves_by_contract d =
    group_all (λ item. item.0) (λ item. item.1) []
      (contract_items
        (filter (λ s. is_openapi s.1.framework) (filter (is_rest serve) (all_endpoints d))))

-- The services whose Kafka entries a manifest describes.
unfoldable pub manifest_services : Endpoints → List Text
manifest_services d = dedup (
    map (λ s. s.0)
      (filter (λ s. s.1.system == kafka && s.1.source == codes "manifest") (all_endpoints d)))

unfoldable pub kafka_endpoints : Endpoints → List Sited
kafka_endpoints d =
    filter
      (λ s.
        s.1.system == kafka
        && (not (contains (manifest_services d) s.0) || s.1.source == codes "manifest"))
      (all_endpoints d)

unfoldable pub produces_of : Endpoints → List Sited
produces_of d = filter (λ s. s.1.role == produce) (kafka_endpoints d)

unfoldable pub consumes_by_topic : Endpoints → Dict Text (List Sited)
consumes_by_topic d =
    group_all (λ s. s.1.topic) (λ s. s) []
      (filter (λ s. s.1.role == consume && not s.1.topic_dynamic) (kafka_endpoints d))

abbrev pub edge_of : Text → Text → Text → MessageEndpoint → Option MessageEndpoint → GraphEdge
edge_of kind from to e served = record {
  kind = kind;
  from_service = from;
  to_service = to;
  from_endpoint = e;
  to_endpoint = served;
}

abbrev pub key_of : Text → Text → Text → Text → Text → EdgeKey
key_of kind from to i j = record {
  kind = kind;
  from_service = from;
  to_service = to;
  from_id = i;
  to_id = j;
}

-- The single service of the targets of a contract, with its first route.
unfoldable pub single_target : List Sited → Option Sited
single_target [] = none
single_target (target ∷ targets) =
    if nat_beq (length (dedup (map (λ s. s.0) (target ∷ targets)))) 1 then some target else none

-- call.framework == "spring-cloud-gateway" and call.topic.startswith("ANY ")
pub is_gateway_proxy : MessageEndpoint → Bool
is_gateway_proxy caller = elim caller.framework [
  | none ↦ false
  | some framework ↦
      framework == codes "spring-cloud-gateway" && starts_with (codes "ANY ") caller.topic
]

has_domain : MessageEndpoint → Bool
has_domain e = elim (configured_api_client_domain e) [ none ↦ false | some domain ↦ true ]

resolved_or_none : Status → Option Text → Option Text
resolved_or_none Status.resolved service = service
resolved_or_none _ service = none

-- The service of a resolution whose status is `resolved`.
resolved_service : RestTargetResolution → Option Text
unfolding resolved_or_none
resolved_service r = resolved_or_none r.status r.service

abbrev pub start : Progress
start = record { edges = []; seen = []; gateway_proxy_targets = [] }

-- The arguments of build_graph, and Python's `re`.
pub record Inputs : Type 0 where
  pub compile : Compile
  pub rest_policy : RestTargetPolicy
  pub service_aliases : Dict Text (List Text)
  pub endpoints_by_service : Endpoints

module _ (b : Inputs) where
  open b use {compile, rest_policy, service_aliases as aliases, endpoints_by_service as d}

  -- What an explicit OpenAPI contract of the call decides, if anything.
  unfoldable pub contract_target : Text → MessageEndpoint → Option Sited
  unfolding single_target
  contract_target call_service caller = elim (openapi_contract_evidence caller) [
    | none ↦ none
    | some contract ↦ single_target (
        filter (λ s. not (s.0 == call_service) && paths_match compile caller.topic s.1.topic)
          (group (serves_by_contract d) contract))
  ]

  -- The call as it reaches one route of the resolved service, or `none` where it is skipped.
  unfoldable pub effective_call :
      List Text → MessageEndpoint → MessageEndpoint → Option MessageEndpoint
  effective_call selected caller served =
      if contains selected served.id
      then some caller
      else if paths_match compile caller.topic served.topic
      then none
      else resolved_configured_api_call caller served

  -- A gateway proxy reaches each target service once.
  unfoldable pub reach_route :
      Text → Text → MessageEndpoint → MessageEndpoint → MessageEndpoint → Progress → Progress
  unfolding is_gateway_proxy
  reach_route from to caller effective served p =
      let key = key_of rest from to caller.id served.id in
      let edge = edge_of rest from to effective (some served) in
      if is_gateway_proxy caller
      then if contains p.gateway_proxy_targets (caller.id, to)
        then p
        else emit key edge
            (record p { gateway_proxy_targets = (caller.id, to) ∷ p.gateway_proxy_targets })
      else emit key edge p

  -- The body of `for serve in target_serves`.
  unfoldable pub serve_step :
      List Text → Text → Text → MessageEndpoint → Progress → MessageEndpoint → Progress
  serve_step selected from to caller p served = elim (effective_call selected caller served) [
    | none ↦ p
    | some effective ↦ reach_route from to caller effective served p
  ]

  unfoldable pub target_serves : Text → List MessageEndpoint
  target_serves to = group (serves_by_service d) to

  -- The rest of the body of the first loop, for a call whose contract decides nothing.
  unfoldable pub reach_service : Text → MessageEndpoint → Text → Progress → Progress
  reach_service from caller to p =
      let selected =
        map (λ s. s.id) (select_matching_routes compile caller.topic (target_serves to)) in
      if from == to then p else foldl (serve_step selected from to caller) p (target_serves to)

  unfoldable pub resolved_target : MessageEndpoint → Option Text
  unfolding resolved_service
  resolved_target caller =
      resolved_service
        (resolve_rest_target_service rest_policy aliases caller (sort text_leb (keys d)))

  -- for call_service, call in calls
  unfoldable pub rest_step : Progress → Sited → Progress
  rest_step p (from, caller) = elim (contract_target from caller) [
    | some (to, served) ↦
        emit (key_of rest from to caller.id served.id) (edge_of rest from to caller (some served)) p
    | none ↦ elim (resolved_target caller) [ none ↦ p | some to ↦ reach_service from caller to p ]
  ]

  -- resolved_configured_calls
  unfoldable pub resolved_configured_calls : List GraphEdge → List (Text × Text)
  unfolding has_domain
  resolved_configured_calls edges =
      map (λ edge. (edge.from_endpoint.id, edge.to_service))
        (filter (λ edge. edge.kind == rest && has_domain edge.from_endpoint) edges)

  unfoldable pub configured_step : List (Text × Text) → Progress → Sited → Progress
  configured_step done p (from, caller) = elim (configured_api_client_domain caller) [
    | none ↦ p
    | some domain ↦
        if not (contains (keys d) domain) || from == domain
        then p
        else if contains done (caller.id, domain)
        then p
        else emit (key_of rest from domain (codes "configured-api") [])
            (edge_of rest from domain caller none) p
  ]

  unfoldable pub external_step : Progress → Sited → Progress
  external_step p (from, caller) = elim (external_microservice_name rest_policy caller) [
    | none ↦ p
    | some name ↦
        if from == name
        then p
        else emit (key_of rest from name (codes "configured-external") [])
            (edge_of rest from name caller none) p
  ]

  unfoldable pub consume_step : Text → MessageEndpoint → Progress → Sited → Progress
  consume_step from producer p (to, consumer) =
      if from == to || message_types_conflict producer.message_type consumer.message_type
      then p
      else emit (key_of kafka from to producer.id consumer.id)
          (edge_of kafka from to producer (some consumer)) p

  unfoldable pub produce_step : Progress → Sited → Progress
  produce_step p (from, producer) =
      if producer.topic_dynamic
      then p
      else foldl (consume_step from producer) p (group (consumes_by_topic d) producer.topic)

  -- The state behind each of the four loops.
  unfoldable pub after_routes : Progress
  after_routes = foldl rest_step start (calls_of d)

  unfoldable pub after_configured : Progress
  after_configured =
      foldl (configured_step (resolved_configured_calls after_routes.edges)) after_routes
        (calls_of d)

  unfoldable pub after_external : Progress
  after_external = foldl external_step after_configured (calls_of d)

  unfoldable pub after_kafka : Progress
  after_kafka = foldl produce_step after_external (produces_of d)

  unfoldable pub build_graph : List GraphEdge
  unfolding after_routes after_configured after_external after_kafka
  build_graph = after_kafka.edges
