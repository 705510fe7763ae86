-- ===== src/Graph/Messaging.antt =====
-- graph_edges_from_facts of domain/graph.py: the messaging edges that accepted facts assert. The
-- source runs through its sets of services in an order that Python leaves open; here it is the order
-- of their first insertion.
pub mod Sides
pub mod Contributions
pub mod Facts
pub mod Joined
pub mod Linked
pub mod Pairs
pub mod Laws
mod Examples
use systemlens.Prelude.{
  ℕ, zero, suc, Bool, true, false, ◌&&◌, ◌||◌, not, Option, none, some, List, [], ◌∷◌, ◌++◌,
  if◌then◌else◌, ◌==◌, filter, map, contains, foldl, Eq, pair_eq, option_eq,
}
use systemlens.Prelude.Dict.{Dict, get, group, push, group_all, keys}
use systemlens.Prelude.Seen.{keep_all}
use systemlens.Text.{Text, text_eq, codes, strip}
use systemlens.Models.{MessageEndpoint, kafka, produce, consume}
use systemlens.Models.Facts.{GraphFact, Value, entries}
use systemlens.MessageTypes.{message_types_conflict}
use systemlens.Graph.Edges.{GraphEdge, EdgeKey, key_eq}
use systemlens.Graph.Edges.Build.{Endpoints, Sited, all_endpoints}

-- Source service, target service, channel.
abbrev pub Link : Type 0
Link = Text × (Text × Text)

unfoldable pub service_names : Endpoints → List Text
service_names [] = []
service_names ((service, []) ∷ d) = service_names d
service_names ((service, e ∷ es) ∷ d) = service ∷ service_names d

unfoldable pub one_of : Option Text → List Text → Bool
one_of none names = false
one_of (some kind) names = contains names kind

unfoldable pub service_name : List Text → Option Text → Option Text → Option Text
unfolding one_of
service_name names kind none = none
service_name names kind (some name) =
    if one_of kind (codes "service" ∷ codes "microservice" ∷ []) && contains names name
    then some name
    else none

unfoldable pub is_channel : Option Text → Bool
unfolding one_of
is_channel kind = one_of kind (codes "topic" ∷ codes "message_channel" ∷ [])

-- `a or b` on values: false are None, "" and the other objects for which 0 stands.
or_value : Option Value → Option Value → Option Value
or_value none b = b
or_value (some Value.null) b = b
or_value (some (Value.str [])) b = b
or_value (some (Value.str (c ∷ s))) b = some (Value.str (c ∷ s))
or_value (some (Value.other zero)) b = b
or_value (some (Value.other (suc n))) b = some (Value.other (suc n))

-- value.strip() if isinstance(value, str) and value.strip() else None
stripped : Option Value → Option Text
stripped (some (Value.str s)) = elim (strip s) [ [] ↦ none | c ∷ r ↦ some (c ∷ r) ]
stripped _ = none

-- value is None
given : Option Value → Option Value
given (some Value.null) = none
given value = value

as_value : Option Text → Option Value
as_value none = none
as_value (some s) = some (Value.str s)

unfoldable pub channel : GraphFact → Option Text
unfolding entries or_value given stripped as_value is_channel
channel fact =
    let metadata = entries fact.metadata in
    let value = given (or_value (get metadata (codes "channel")) (get metadata (codes "topic"))) in
    stripped (elim value [
      | some v ↦ some v
      | none ↦
          if is_channel fact.target_kind
          then as_value fact.target_name
          else if is_channel fact.source_kind
          then as_value fact.source_name
          else none
    ])

unfoldable pub accepted : GraphFact → Bool
accepted fact =
    fact.fact_type == codes "edge"
    && (fact.status == codes "confirmed" || fact.status == codes "proposed")
    && fact.kind == codes "event"

-- The three variables that the loop over the facts fills.
pub record Links : Type 0 where
  pub direct : List Link
  pub published : Dict Text (List Text)
  pub consumed : Dict Text (List Text)

-- d.setdefault(k, set()).add(v)
unfoldable pub add : Dict Text (List Text) → Text → Text → Dict Text (List Text)
add d k v = if contains (group d k) v then d else push d k v

unfoldable pub channel_name : Option Text → Option Text → Option Text
unfolding is_channel
channel_name kind name = if is_channel kind then name else none

-- if source_service and target_channel: ... elif source_channel and target_service: ...; an empty
-- name is false.
unfoldable pub half_link : Option Text → Option Text → Option Text → Option Text → Links → Links
unfolding add
half_link (some (c ∷ s)) source_channel target_service (some (d ∷ t)) links = record links {
  published = add links.published (d ∷ t) (c ∷ s);
}
half_link source_service (some (c ∷ s)) (some (d ∷ t)) target_channel links = record links {
  consumed = add links.consumed (c ∷ s) (d ∷ t);
}
half_link _ _ _ _ links = links

unfoldable pub link_of :
    Option Text → Option Text → Option Text → Option Text → Text → Links → Links
unfolding half_link
link_of (some (c ∷ s)) source_channel (some (d ∷ t)) target_channel name links = record links {
  direct = links.direct ++ (c ∷ s, (d ∷ t, name)) ∷ [];
}
link_of source_service source_channel target_service target_channel name links =
    half_link source_service source_channel target_service target_channel links

unfoldable pub fact_step : List Text → Links → GraphFact → Links
unfolding link_of channel_name service_name channel accepted
fact_step names links fact = elim (channel fact) [
  | none ↦ links
  | some name ↦
      if accepted fact
      then link_of (service_name names fact.source_kind fact.source_name)
          (channel_name fact.source_kind fact.source_name)
          (service_name names fact.target_kind fact.target_name)
          (channel_name fact.target_kind fact.target_name) name links
      else links
]

unfoldable pub pairs : Text → List Text → Text → List Link
pairs name [] source = []
pairs name (target ∷ targets) source = (source, (target, name)) ∷ pairs name targets source

unfoldable pub joined_at : Text → List Text → List Text → List Link
unfolding pairs
joined_at name [] targets = []
joined_at name (source ∷ sources) targets =
    pairs name targets source ++ joined_at name sources targets

-- The loop that joins the publishers of a channel to its consumers.
unfoldable pub joined : Dict Text (List Text) → Dict Text (List Text) → List Link
unfolding joined_at
joined [] consumed = []
joined ((name, sources) ∷ published) consumed =
    joined_at name sources (group consumed name) ++ joined published consumed

unfoldable pub links_of : List GraphFact → Endpoints → List Link
unfolding fact_step service_names joined
links_of facts d =
    let links =
      foldl (fact_step (service_names d)) (record { direct = []; published = []; consumed = [] })
        facts in
    links.direct ++ joined links.published links.consumed

abbrev pub is_messaging : Sited → Bool
is_messaging s = s.1.system == kafka && (s.1.role == produce || s.1.role == consume)

unfoldable pub kafka_endpoint_index : Endpoints → Dict (Text × (Text × Text)) (List MessageEndpoint)
kafka_endpoint_index d =
    group_all (λ s. (s.0, (s.1.topic, s.1.role))) (λ s. s.1) []
      (filter is_messaging (all_endpoints d))

abbrev pub message_edge : Text → Text → MessageEndpoint → MessageEndpoint → GraphEdge
message_edge from to producer consumer = record {
  kind = kafka;
  from_service = from;
  to_service = to;
  from_endpoint = producer;
  to_endpoint = some consumer;
}

edges_for : Text → Text → List MessageEndpoint → MessageEndpoint → List GraphEdge
edges_for from to consumers producer =
    map (message_edge from to producer)
      (filter (λ c. not (message_types_conflict producer.message_type c.message_type)) consumers)

edges_between : Text → Text → List MessageEndpoint → List MessageEndpoint → List GraphEdge
unfolding edges_for
edges_between from to [] consumers = []
edges_between from to (producer ∷ producers) consumers =
    edges_for from to consumers producer ++ edges_between from to producers consumers

unfoldable pub message_edges :
    Dict (Text × (Text × Text)) (List MessageEndpoint) → List Link → List GraphEdge
unfolding edges_between
message_edges index [] = []
message_edges index ((from, (to, name)) ∷ links) =
    edges_between from to (group index (from, (name, produce))) (group index (to, (name, consume)))
    ++ message_edges index links

consumer_id : Option MessageEndpoint → Text
consumer_id none = []
consumer_id (some e) = e.id

unfoldable pub message_key : GraphEdge → EdgeKey
unfolding consumer_id
message_key e = record {
  kind = e.kind;
  from_service = e.from_service;
  to_service = e.to_service;
  from_id = e.from_endpoint.id;
  to_id = consumer_id e.to_endpoint;
}

unfoldable pub graph_edges_from_facts : List GraphFact → Endpoints → List GraphEdge
unfolding message_key links_of kafka_endpoint_index message_edges
graph_edges_from_facts facts d =
    (keep_all message_key (message_edges (kafka_endpoint_index d) (links_of facts d))).items
