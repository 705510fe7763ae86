-- ===== src/Graph/Messaging/Laws.antt =====
-- The edges of graph_edges_from_facts (domain/graph.py) join indexed sites of one channel that the
-- facts link.
use mathlib.Core.List.Memᴰ
use systemlens.Prelude.{◌≡◌, ap, some, List, Memᴰ, pair_eq}
use systemlens.Prelude.Seen.{keep_all, keep_all-Memᴰ, keep_all-keys}
use systemlens.Text.{Text, text_eq}
use systemlens.Models.{MessageEndpoint, kafka}
use systemlens.Models.Facts.{GraphFact}
use systemlens.Graph.Edges.{GraphEdge, EdgeKey, key_eq}
use systemlens.Graph.Edges.Build.{Endpoints}
use systemlens.Graph.Messaging.{
  links_of, kafka_endpoint_index, message_edge, message_edges, message_key, graph_edges_from_facts,
}
use systemlens.Graph.Messaging.Linked.{IsLink, links_iff}
use systemlens.Graph.Messaging.Pairs.{
  Carries, Listed, relinked, message_edges_sound, message_edges_complete,
}

module _ (d : Endpoints) where
  -- Every edge is justified by the facts: by a confirmed or proposed event fact that names both
  -- services and the channel, or by one from the source service to the channel and one from the
  -- channel to the target service. The edge joins an indexed producer of the source and an indexed
  -- consumer of the target, both on that channel and with compatible payloads.
  pub facts_sound :
      (facts : List GraphFact) (e : GraphEdge)
      → Memᴰ e (graph_edges_from_facts facts d)
      → (name : Text) × ((consumer : MessageEndpoint) × ((e.to_endpoint ≡ some consumer)
            × Carries d (IsLink d facts) e.from_service e.to_service name e.from_endpoint consumer))
  unfolding graph_edges_from_facts
  facts_sound facts e m =
      let (name, (c, (q, h))) =
        message_edges_sound d (links_of facts d) e (keep_all-Memᴰ message_key _ e m) in
      (
        name,
        (
          c,
          (
            q,
            relinked d (Listed (links_of facts d)) (IsLink d facts) e.from_service e.to_service name
                e.from_endpoint c (links_iff d facts e.from_service e.to_service name).0 h,
          ),
        ),
      )

  -- An edge between two sites of these ids.
  pub record Joins (from to : Text) (producer consumer : MessageEndpoint) (e : GraphEdge)
      : Type 0 where
    pub kind : e.kind ≡ kafka
    pub from_is : e.from_service ≡ from
    pub to_is : e.to_service ≡ to
    pub starts : e.from_endpoint.id ≡ producer.id
    pub ends : (t : MessageEndpoint) × ((e.to_endpoint ≡ some t) × (t.id ≡ consumer.id))

  key-Joins :
      (from to : Text) (p c t : MessageEndpoint) (e : GraphEdge)
      → message_key e ≡ message_key (message_edge from to p c)
      → e.to_endpoint ≡ some t
      → Joins from to p c e
  unfolding message_key
  key-Joins from to p c t e q h = record {
    kind = ap (λ (k : EdgeKey). k.kind) q;
    from_is = ap (λ (k : EdgeKey). k.from_service) q;
    to_is = ap (λ (k : EdgeKey). k.to_service) q;
    starts = ap (λ (k : EdgeKey). k.from_id) q;
    ends = (t, (h, rw h at (ap (λ (k : EdgeKey). k.to_id) q)));
  }

  -- No link of the facts is lost: where one event fact names two services and a channel, or two
  -- lead over a channel, an indexed producer and an indexed consumer of the channel with compatible
  -- payloads have an edge between their services that carries their ids.
  pub facts_complete :
      (facts : List GraphFact) (from to name : Text) (producer consumer : MessageEndpoint)
      → Carries d (IsLink d facts) from to name producer consumer
      → (e : GraphEdge) × (Memᴰ e (graph_edges_from_facts facts d)
          × Joins from to producer consumer e)
  unfolding graph_edges_from_facts
  facts_complete facts from to name producer consumer h =
      let all = message_edges (kafka_endpoint_index d) (links_of facts d) in
      let listed =
        relinked d (IsLink d facts) (Listed (links_of facts d)) from to name producer consumer
          (links_iff d facts from to name).1 h in
      let (e, k, q) = Memᴰ.of_map message_key (keep_all message_key all).items (
        keep_all-keys message_key all (message_edge from to producer consumer)
          (message_edges_complete d (links_of facts d) from to name producer consumer listed)) in
      let (n, (t, (at, _))) = facts_sound facts e k in
      (e, (k, key-Joins from to producer consumer t e q at))
