-- ===== src/Graph/Handlers.antt =====
-- find_outbound_calls_in_consumers of domain/graph.py: REST calls inside Kafka handlers.
mod Examples
pub mod Laws
use systemlens.Prelude.{ℕ, Bool, ◌&&◌, List, [], ◌∷◌, ◌++◌, filter, map, leb, ◌==◌}
use systemlens.Prelude.Dict.{Dict, group, group_all}
use systemlens.Text.{Text, text_eq}
use systemlens.Models.{MessageEndpoint, kafka, rest, consume, call}

pub record OutboundCallInConsumer : Type 0 where
  pub consumer : MessageEndpoint
  pub call_site : MessageEndpoint

unfoldable pub is_consumer : MessageEndpoint → Bool
is_consumer e = e.system == kafka && e.role == consume

unfoldable pub is_call : MessageEndpoint → Bool
is_call e = e.system == rest && e.role == call

unfoldable pub calls_by_path : List MessageEndpoint → Dict Text (List MessageEndpoint)
unfolding is_call
calls_by_path endpoints = group_all (λ e. e.path) (λ e. e) [] (filter is_call endpoints)

-- consumer.start_line <= call.start_line <= consumer.end_line
unfoldable pub inside : MessageEndpoint → MessageEndpoint → Bool
inside consumer site =
    leb consumer.start_line site.start_line && leb site.start_line consumer.end_line

-- The inner loop.
unfoldable pub calls_inside : List MessageEndpoint → MessageEndpoint → List OutboundCallInConsumer
unfolding inside
calls_inside calls consumer =
    map (λ site. record { consumer = consumer; call_site = site }) (filter (inside consumer) calls)

-- The outer loop.
unfoldable pub outbound_of :
    Dict Text (List MessageEndpoint) → List MessageEndpoint → List OutboundCallInConsumer
unfolding calls_inside
outbound_of by_path [] = []
outbound_of by_path (consumer ∷ consumers) =
    calls_inside (group by_path consumer.path) consumer ++ outbound_of by_path consumers

unfoldable pub find_outbound_calls_in_consumers : List MessageEndpoint → List OutboundCallInConsumer
unfolding outbound_of calls_by_path is_consumer
find_outbound_calls_in_consumers endpoints =
    outbound_of (calls_by_path endpoints) (filter is_consumer endpoints)
