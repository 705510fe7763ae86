-- ===== src/Flow/Examples.antt =====
-- Runs of the flow of one topic (application/flow.py).
use mathlib.Core.List.Memᴰ
use systemlens.Prelude.{
  ◌≡◌, refl, ap, false, none, some, List, [], ◌∷◌, Distinct, Memᴰ, ◌↔◌, inl, contains, dedup,
  dedup_from, filter,
}
use systemlens.Text.{Text, text_eq, text_beq, codes, infix_of, starts_with, lower, lower_code}
use systemlens.Text.Order.{sort, insert}
use systemlens.Models.{MessageEndpoint, kafka, produce, consume}
use systemlens.Flow.{FlowResult, Services, resolve_topic, topic_matches, all_topics, trace_flow}
use systemlens.Flow.Laws.{Names, Traces, resolve_topic_iff, trace_flow_found, trace_flow_error}

abbrev site : Text → Text → Text → MessageEndpoint
site id role topic = record {
  id = id;
  role = role;
  system = kafka;
  topic = topic;
  topic_dynamic = false;
  source = codes "code";
  framework = none;
  path = codes "A.java";
  start_line = 1;
  end_line = 2;
  snippet = [];
  in_module = none;
  qualified_name = none;
  message_type = none;
  topic_display = none;
}

abbrev orders : Text
orders = codes "orders"

abbrev two_services : Services
two_services =
    (some (codes "shop"), site (codes "a") produce orders ∷ site (codes "a") produce orders ∷ [])
    ∷ (none, site (codes "b") consume orders ∷ [])
    ∷ []

orders_indexed : all_topics two_services ≡ orders ∷ []
unfolding all_topics dedup dedup_from contains text_beq
orders_indexed = refl

orders_named : Names orders (all_topics two_services) orders
orders_named = rw orders_indexed (inl (Memᴰ.head refl, refl))

-- One topic mentions the query, in another case.
abbrev mixed : List Text
mixed = codes "Orders" ∷ codes "bills" ∷ []

mixed-Distinct : Distinct mixed
unfolding text_beq
mixed-Distinct =
    (λ m. cc (ap (λ t. text_beq t (codes "bills")) (Memᴰ.eq_of_singleton m)), (Memᴰ.not-nil, tt))

mixed_resolved : resolve_topic orders mixed ≡ some (codes "Orders")
unfolding resolve_topic topic_matches contains text_beq filter sort insert infix_of starts_with
    lower lower_code
mixed_resolved = refl

resolve_topic_iff_example :
    (resolve_topic orders mixed ≡ some (codes "Orders")) ↔ Names orders mixed (codes "Orders")
resolve_topic_iff_example = resolve_topic_iff orders mixed (codes "Orders") mixed-Distinct

trace_flow_found_example :
    (r : FlowResult) × ((trace_flow orders two_services [] ≡ some r)
      × ((r.resolved_topic ≡ orders) × ((r.warnings ≡ []) × Traces two_services r)))
trace_flow_found_example = trace_flow_found orders two_services [] orders orders_named

trace_flow_error_example :
    (trace_flow (codes "x") two_services [] ≡ none)
    ↔ ((t : Text) → ¬ Names (codes "x") (all_topics two_services) t)
trace_flow_error_example = trace_flow_error (codes "x") two_services []
