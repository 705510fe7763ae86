-- ===== src/Graph/Examples.antt =====
-- Runs of the graph of domain/graph.py on a small workspace: an orders service that serves a
-- route and publishes a topic, and a billing service that calls the one and consumes the other.
use mathlib.Core.List.Memᴰ
use systemlens.Prelude.{
  true, false, none, some, List, [], ◌∷◌, ◌≡◌, ◌≢◌, refl, sym, ap, ◌∙◌, ◌↔◌, inl, inr, subst, All,
  All-at, filter, any, contains, dedup, dedup_from, all, Memᴰ, Distinct,
}
use systemlens.Prelude.Dict.{group, group_all, push}
use systemlens.Text.{
  Text, text_eq, codes, text_beq, text_beq_iff, partition, split, starts_with, ends_with, strip,
  lower, lower_code, is_space, is_word, is_alnum, drop_while, rstrip_by, infix_of,
}
use systemlens.Text.Order.{sort, insert, text_leb}
use systemlens.Text.Regex.{search, search_from, after_literal, run, run1, longest, boundary}
use systemlens.Models.{MessageEndpoint, kafka, rest, produce, consume, serve, call}
use systemlens.MessageTypes.{message_types_conflict}
use systemlens.Graph.Paths.{
  Compile, split_path, paths_match, all_match, segment_matches, is_template_segment,
  literal_fits_template, segments_match, wildcard_prefix, matches_wildcard_path,
}
use systemlens.Graph.Hosts.{
  service_hint_from_host, normalized_host, url_host_at, is_dns_label, is_ipv4,
}
use systemlens.Graph.Evidence.{
  openapi_contract_evidence, configured_api_client_domain, host_match, load_balanced_match,
  explicit_external_service,
}
use systemlens.Graph.Targets.{
  default_rest_target_policy, resolve_rest_target_service, services_matching_hint,
  rest_target_service_hint, truthy, external_microservice_name, normalized_service_alias,
}
use systemlens.Graph.Routes.{select_matching_routes, ends_in_wildcard, rank_leb, rank_beq}
use systemlens.Graph.Edges.{GraphEdge, emit, key_beq}
use systemlens.Graph.Paths.{http_methods_match}
use systemlens.Graph.Paths.Laws.{IsLiteral, paths_match_sound}
use systemlens.Graph.Routes.Exact.{select_exact}
use systemlens.Graph.Targets.Laws.{Designates, resolve_iff}
use systemlens.Graph.Edges.Sound.{build_graph_apart}
use systemlens.Graph.Edges.Kafka.{Connects}
use systemlens.Graph.Edges.Messages.{kafka_sound, kafka_complete, Realises}
use systemlens.Graph.Edges.Unique.{site_keys, build_graph-Distinct}
use systemlens.Graph.Edges.Build.{
  key_of, Inputs, Endpoints, Sited, edge_of, build_graph, calls_of, all_endpoints, is_rest,
  serves_by_service, serves_by_contract, manifest_services, kafka_endpoints, produces_of,
  consumes_by_topic, contract_target, effective_call, reach_route, serve_step, target_serves,
  reach_service, resolved_target, rest_step, resolved_configured_calls, configured_step,
  external_step, consume_step, produce_step,
}

abbrev point : Text → Text → Text → Text → Text → MessageEndpoint
point id role system topic snippet = record {
  id = id;
  role = role;
  system = system;
  topic = topic;
  topic_dynamic = false;
  source = codes "code";
  framework = none;
  path = codes "A.java";
  start_line = 1;
  end_line = 2;
  snippet = snippet;
  in_module = none;
  qualified_name = none;
  message_type = none;
  topic_display = none;
}

abbrev served : MessageEndpoint
served = point (codes "s") serve rest (codes "GET /items/{id}") []

abbrev published : MessageEndpoint
published = point (codes "p") produce kafka (codes "orders") []

abbrev called : MessageEndpoint
called = point (codes "c") call rest (codes "GET /items/7") (codes "http://orders/items/7")

abbrev consumed : MessageEndpoint
consumed = point (codes "k") consume kafka (codes "orders") []

abbrev workspace : Endpoints
workspace =
    (codes "orders", served ∷ published ∷ []) ∷ (codes "billing", called ∷ consumed ∷ []) ∷ []

abbrev inputs : Inputs
inputs = record {
  compile = λ pattern. none;
  rest_policy = default_rest_target_policy;
  service_aliases = [];
  endpoints_by_service = workspace;
}

abbrev message_edge : GraphEdge
message_edge = edge_of kafka (codes "orders") (codes "billing") published (some consumed)

abbrev route_edge : GraphEdge
route_edge = edge_of rest (codes "billing") (codes "orders") called (some served)

graph_of_workspace : build_graph inputs ≡ route_edge ∷ message_edge ∷ []
unfolding build_graph calls_of all_endpoints is_rest serves_by_service serves_by_contract
    manifest_services kafka_endpoints produces_of consumes_by_topic contract_target effective_call
    reach_route serve_step target_serves reach_service resolved_target rest_step
    resolved_configured_calls configured_step external_step consume_step produce_step emit key_beq
    select_matching_routes paths_match split_path filter contains dedup dedup_from any all group
    group_all push text_beq partition split starts_with ends_with strip lower lower_code is_space
    is_word is_alnum drop_while rstrip_by infix_of sort insert text_leb search search_from
    after_literal run run1 longest boundary message_types_conflict service_hint_from_host
    normalized_host url_host_at is_dns_label is_ipv4 openapi_contract_evidence
    configured_api_client_domain host_match load_balanced_match explicit_external_service
    resolve_rest_target_service services_matching_hint rest_target_service_hint truthy
    external_microservice_name normalized_service_alias all_match segment_matches
    is_template_segment literal_fits_template
graph_of_workspace = refl

in_graph : Memᴰ route_edge (build_graph inputs)
in_graph = subst (Memᴰ route_edge) (sym graph_of_workspace) (Memᴰ.head refl)

messages_in_graph : Memᴰ message_edge (build_graph inputs)
messages_in_graph = subst (Memᴰ message_edge) (sym graph_of_workspace) (Memᴰ.tail (Memᴰ.head refl))

build_graph_apart_example : route_edge.from_service ≢ route_edge.to_service
build_graph_apart_example = build_graph_apart inputs route_edge in_graph

build_graph-Distinct_example : Distinct (site_keys (build_graph inputs))
build_graph-Distinct_example = build_graph-Distinct inputs

kafka_sound_example :
    (consumer : MessageEndpoint) × ((message_edge.to_endpoint ≡ some consumer)
      × Connects workspace message_edge.from_service message_edge.to_service
          message_edge.from_endpoint consumer)
kafka_sound_example = kafka_sound inputs message_edge messages_in_graph refl

code_source : codes "code" ≢ codes "manifest"
unfolding text_beq
code_source e = cc ((text_beq_iff (codes "code") (codes "manifest")).1 e)

ids_differ : codes "s" ≢ codes "n"
unfolding text_beq
ids_differ e = cc ((text_beq_iff (codes "s") (codes "n")).1 e)

-- No point of the workspace comes from a manifest.
from_code :
    (service : Text) (other : MessageEndpoint)
    → Memᴰ (service, other) (all_endpoints workspace)
    → other.source ≢ codes "manifest"
unfolding all_endpoints
from_code service other m =
    All-at (λ (s : Sited). s.1.source ≢ codes "manifest") (all_endpoints workspace)
      (code_source, (code_source, (code_source, (code_source, tt)))) m

connects : Connects workspace (codes "orders") (codes "billing") published consumed
connects = record {
  produced = record {
    listed = unfold all_endpoints in Memᴰ.tail (Memᴰ.head refl);
    messaging = refl;
    authority = λ other m k s. absurd (from_code (codes "orders") other m s);
  };
  consumed = record {
    listed = unfold all_endpoints in Memᴰ.tail (Memᴰ.tail (Memᴰ.tail (Memᴰ.head refl)));
    messaging = refl;
    authority = λ other m k s. absurd (from_code (codes "billing") other m s);
  };
  producer_role = refl;
  consumer_role = refl;
  producer_static = refl;
  consumer_static = refl;
  topic = refl;
  apart = λ e. cc;
  compatible = unfold message_types_conflict in refl;
}

kafka_complete_example :
    (e : GraphEdge) × (Memᴰ e (build_graph inputs)
      × Realises inputs (key_of kafka (codes "orders") (codes "billing") (codes "p") (codes "k")) e)
kafka_complete_example =
    kafka_complete inputs (codes "orders") (codes "billing") published consumed connects

-- The literal route and its sibling with a template.
abbrev no_regex : Compile
no_regex = λ pattern. none

abbrev counted : MessageEndpoint
counted = point (codes "n") serve rest (codes "GET /items/count") []

abbrev siblings : List MessageEndpoint
siblings = served ∷ counted ∷ []

abbrev count_call : Text
count_call = codes "GET /items/count"

counted_matches : paths_match no_regex count_call counted.topic ≡ true
unfolding paths_match text_beq partition split_path filter split segments_match wildcard_prefix
    matches_wildcard_path all_match segment_matches is_template_segment starts_with ends_with
counted_matches = refl

explicit_method : text_beq (partition b' ' count_call).0 (codes "ANY") ≡ false
unfolding text_beq partition
explicit_method = refl

open_end : ends_in_wildcard (split_path (partition b' ' count_call).1) ≡ false
unfolding ends_in_wildcard text_beq partition split_path filter split
open_end = refl

IsLiteral-call : All IsLiteral (split_path (partition b' ' count_call).1)
unfolding partition split_path filter split is_template_segment starts_with ends_with
IsLiteral-call = (refl, (refl, tt))

sibling_ids : (a b : MessageEndpoint) → Memᴰ a siblings → Memᴰ b siblings → a.id ≡ b.id → a ≡ b
sibling_ids a b m n e = elim (Memᴰ.cases_cons m) [
  | inl p ↦ elim (Memᴰ.cases_cons n) [
    | inl q ↦ p ∙ sym q
    | inr q ↦ absurd (
        ids_differ (
          ap (λ (x : MessageEndpoint). x.id) (sym p)
          ∙ e
          ∙ ap (λ (x : MessageEndpoint). x.id) (Memᴰ.eq_of_singleton q)))
  ]
  | inr p ↦ elim (Memᴰ.cases_cons n) [
    | inl q ↦ absurd (
        ids_differ (
          ap (λ (x : MessageEndpoint). x.id) (sym q)
          ∙ sym e
          ∙ ap (λ (x : MessageEndpoint). x.id) (Memᴰ.eq_of_singleton p)))
    | inr q ↦ Memᴰ.eq_of_singleton p ∙ sym (Memᴰ.eq_of_singleton q)
  ]
]

counted_selected : Memᴰ counted (select_matching_routes no_regex count_call siblings)
unfolding select_matching_routes paths_match text_beq partition split_path filter split
    segments_match wildcard_prefix matches_wildcard_path all_match segment_matches
    is_template_segment starts_with ends_with literal_fits_template contains group_all push rank_leb
    rank_beq
counted_selected = Memᴰ.head refl

select_exact_example :
    split_path (partition b' ' counted.topic).1 ≡ split_path (partition b' ' count_call).1
select_exact_example =
    select_exact no_regex count_call siblings explicit_method IsLiteral-call open_end sibling_ids
      counted (Memᴰ.tail (Memᴰ.head refl)) refl counted_matches counted counted_selected

paths_match_sound_example :
    ((partition b' ' count_call).1 ≢ codes "<dynamic>")
    × (http_methods_match count_call counted.topic ≡ true)
    × (segments_match no_regex
          (split_path (partition b' ' count_call).1)
          (split_path (partition b' ' counted.topic).1)
        ≡ true)
paths_match_sound_example = paths_match_sound no_regex count_call counted.topic counted_matches

-- A call to `billing`, of which the name is written in capitals.
abbrev names : List Text
names = codes "orders" ∷ codes "Billing" ∷ []

abbrev to_billing : MessageEndpoint
to_billing = point (codes "b") call rest (codes "GET /x") (codes "http://billing/x")

hint_of_call :
    rest_target_service_hint default_rest_target_policy to_billing ≡ some (codes "billing")
unfolding rest_target_service_hint truthy host_match load_balanced_match search search_from
    url_host_at after_literal run run1 contains service_hint_from_host normalized_host is_ipv4
    is_dns_label text_beq split strip lower rstrip_by drop_while all is_space
hint_of_call = refl

internal_call : truthy (external_microservice_name default_rest_target_policy to_billing) ≡ none
unfolding truthy external_microservice_name explicit_external_service search search_from
    after_literal
internal_call = refl

resolve_iff_example :
    ((resolve_rest_target_service default_rest_target_policy [] to_billing names).service
      ≡ some (codes "Billing"))
    ↔ (Designates names [] (codes "billing") (codes "Billing")
        × ((t : Text) → Designates names [] (codes "billing") t → t ≡ codes "Billing"))
resolve_iff_example =
    resolve_iff default_rest_target_policy [] to_billing names (codes "billing") internal_call
      hint_of_call (codes "Billing")
