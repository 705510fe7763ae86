-- ===== src/Graph/Edges/Messages.antt =====
-- The messaging edges of build_graph (domain/graph.py) are exactly the connected pairs.
use mathlib.Core.List.Memᴰ
use mathlib.Core.Logic.{⊎_elim}
use systemlens.Prelude.{
  Bool, true, false, ◌&&◌, ◌||◌, not, some, [], ◌∷◌, ◌==◌, ◌≡◌, ◌≢◌, refl, sym, ap, ◌∙◌, subst,
  contains, contains_iff, filter, foldl_inv, foldl_reaches, Memᴰ, Memᴰ-filter, Bool-cases, inl, inr,
  arith,
}
use systemlens.Prelude.Dict.{group, Memᴰ-group_all, group_all-Memᴰ}
use systemlens.Text.{Text, text_eq, text_beq, text_beq_iff}
use systemlens.Models.{MessageEndpoint, kafka, rest, produce, consume}
use systemlens.MessageTypes.{message_types_conflict}
use systemlens.Graph.Edges.{GraphEdge, EdgeKey, key_eq, Progress, emit}
use systemlens.Graph.Edges.Build.{
  Inputs, Endpoints, Sited, key_of, kafka_endpoints, produces_of, consumes_by_topic, consume_step,
  produce_step, after_external, after_kafka, build_graph,
}
use systemlens.Graph.Edges.Emits.{
  Emits, Emits.contracted, Emits.routed, Emits.configured, Emits.outside, Emits.messaged,
  build_graph_induction,
}
use systemlens.Graph.Edges.Sound.{build_graph-Emits}
use systemlens.Graph.Edges.Kafka.{
  IsEffective, Connects, kafka_endpoints-IsEffective, IsEffective-kafka_endpoints,
}

rest_ne_kafka : rest ≢ kafka
rest_ne_kafka e = cc

module _ (d : Endpoints) where
  abbrev consuming : Sited → Bool
  consuming s = s.1.role == consume && not s.1.topic_dynamic

  consumers_of :
      (topic to : Text) (consumer : MessageEndpoint)
      → Memᴰ (to, consumer) (group (consumes_by_topic d) topic)
      → IsEffective d to consumer
        × (consumer.role ≡ consume)
        × (consumer.topic_dynamic ≡ false)
        × (consumer.topic ≡ topic)
  unfolding consumes_by_topic group
  consumers_of topic to consumer m =
      ⊎_elim (λ n. absurd (Memᴰ.not-nil n))
        (λ (s, n, k, e).
          let (found, t) = (Memᴰ-filter consuming s (kafka_endpoints d)).0 n in
          let same : s.1 ≡ consumer = ap (λ (z : Sited). z.1) e in
          let site : s.0 ≡ to = ap (λ (z : Sited). z.0) e in
          (
            kafka_endpoints-IsEffective d to consumer (Memᴰ.cast (sym e) found),
            subst (λ (z : MessageEndpoint). z.role ≡ consume) same
                (ground (arith, text_beq_iff s.1.role consume)),
            subst (λ (z : MessageEndpoint). z.topic_dynamic ≡ false) same (ground arith),
            subst (λ (z : MessageEndpoint). z.topic ≡ topic) same k,
          ))
        (Memᴰ-group_all (λ (s : Sited). s.1.topic) (λ (s : Sited). s) []
          (filter consuming (kafka_endpoints d)) topic (to, consumer) m)

  consumer_listed :
      (to : Text) (consumer : MessageEndpoint)
      → IsEffective d to consumer
      → consumer.role ≡ consume
      → consumer.topic_dynamic ≡ false
      → Memᴰ (to, consumer) (group (consumes_by_topic d) consumer.topic)
  unfolding consumes_by_topic
  consumer_listed to consumer h r s =
      group_all-Memᴰ (λ (s : Sited). s.1.topic) (λ (s : Sited). s) []
        (filter consuming (kafka_endpoints d)) (to, consumer)
        ((Memᴰ-filter consuming (to, consumer) (kafka_endpoints d)).1 (
          IsEffective-kafka_endpoints d to consumer h,
          ground (arith, text_beq_iff consumer.role consume),
        ))

  producer_listed :
      (from : Text) (producer : MessageEndpoint)
      → Memᴰ (from, producer) (produces_of d)
      → IsEffective d from producer × (producer.role ≡ produce)
  unfolding produces_of
  producer_listed from producer m =
      let (n, t) =
        (Memᴰ-filter (λ (s : Sited). s.1.role == produce) (from, producer) (kafka_endpoints d)).0
          m in
      (kafka_endpoints-IsEffective d from producer n, (text_beq_iff producer.role produce).0 t)

module _ (b : Inputs) where
  open b use {endpoints_by_service as d}

  Emits-kafka :
      (k : EdgeKey) (e : GraphEdge)
      → Emits b k e
      → e.kind ≡ kafka
      → (consumer : MessageEndpoint) × ((e.to_endpoint ≡ some consumer)
          × Connects d e.from_service e.to_service e.from_endpoint consumer)
  Emits-kafka k e (contracted from to caller served m c p q) h =
      absurd (rest_ne_kafka (sym (ap (λ (x : GraphEdge). x.kind) q) ∙ h))
  Emits-kafka k e (routed from to caller effective served m r n s f p q) h =
      absurd (rest_ne_kafka (sym (ap (λ (x : GraphEdge). x.kind) q) ∙ h))
  Emits-kafka k e (configured from domain caller m c i n p q) h =
      absurd (rest_ne_kafka (sym (ap (λ (x : GraphEdge). x.kind) q) ∙ h))
  Emits-kafka k e (outside from name caller m c n p q) h =
      absurd (rest_ne_kafka (sym (ap (λ (x : GraphEdge). x.kind) q) ∙ h))
  Emits-kafka k e (messaged from to producer consumer m s n a c p q) h =
      let (made, role) = producer_listed d from producer m in
      let (used, reads, static, topic) = consumers_of d producer.topic to consumer n in
      (
        consumer,
        (
          ap (λ (x : GraphEdge). x.to_endpoint) q,
          subst (λ (x : GraphEdge). Connects d x.from_service x.to_service x.from_endpoint consumer)
              (sym q)
              (record {
                produced = made;
                consumed = used;
                producer_role = role;
                consumer_role = reads;
                producer_static = s;
                consumer_static = static;
                topic = topic;
                apart = a;
                compatible = c;
              }),
        ),
      )

  -- A messaging edge joins a producer and a consumer of two different services on one concrete
  -- topic, whose payload types do not conflict. Both points are Kafka points of their services, and
  -- are the manifest's where a manifest describes the service.
  pub kafka_sound :
      (e : GraphEdge)
      → Memᴰ e (build_graph b)
      → e.kind ≡ kafka
      → (consumer : MessageEndpoint) × ((e.to_endpoint ≡ some consumer)
          × Connects d e.from_service e.to_service e.from_endpoint consumer)
  kafka_sound e m h = let (k, w) = build_graph-Emits b e m in Emits-kafka k e w h

  -- The edge that stands for a key.
  pub record Realises (k : EdgeKey) (e : GraphEdge) : Type 0 where
    pub is_kafka : e.kind ≡ kafka
    pub from : e.from_service ≡ k.from_service
    pub to : e.to_service ≡ k.to_service
    pub source : e.from_endpoint.id ≡ k.from_id
    pub target :
        (consumer : MessageEndpoint) × ((e.to_endpoint ≡ some consumer) × (consumer.id ≡ k.to_id))

  Emits-Realises : (k : EdgeKey) (e : GraphEdge) → Emits b k e → k.kind ≡ kafka → Realises k e
  Emits-Realises k e (contracted from to caller served m c p q) h =
      absurd (rest_ne_kafka (sym (ap (λ (x : EdgeKey). x.kind) p) ∙ h))
  Emits-Realises k e (routed from to caller effective served m r n s f p q) h =
      absurd (rest_ne_kafka (sym (ap (λ (x : EdgeKey). x.kind) p) ∙ h))
  Emits-Realises k e (configured from domain caller m c i n p q) h =
      absurd (rest_ne_kafka (sym (ap (λ (x : EdgeKey). x.kind) p) ∙ h))
  Emits-Realises k e (outside from name caller m c n p q) h =
      absurd (rest_ne_kafka (sym (ap (λ (x : EdgeKey). x.kind) p) ∙ h))
  Emits-Realises k e (messaged from to producer consumer m s n a c p q) h =
      let field_of = λ (f : GraphEdge → Text). ap f q in
      record {
        is_kafka = field_of (λ x. x.kind);
        from = field_of (λ x. x.from_service) ∙ sym (ap (λ (x : EdgeKey). x.from_service) p);
        to = field_of (λ x. x.to_service) ∙ sym (ap (λ (x : EdgeKey). x.to_service) p);
        source = field_of (λ x. x.from_endpoint.id) ∙ sym (ap (λ (x : EdgeKey). x.from_id) p);
        target = (
          consumer,
          (ap (λ (x : GraphEdge). x.to_endpoint) q, sym (ap (λ (x : EdgeKey). x.to_id) p)),
        );
      }

  abbrev Kept : Progress → Type 0
  Kept p =
      (k : EdgeKey)
      → Memᴰ k p.seen
      → k.kind ≡ kafka
      → (e : GraphEdge) × (Memᴰ e p.edges × Realises k e)

  Kept-emit :
      (p : Progress) (k : EdgeKey) (e : GraphEdge) → Emits b k e → Kept p → Kept (emit k e p)
  unfolding emit
  Kept-emit p k e w h = elim (Bool-cases (contains p.seen k)) [
    | inl t ↦ rw t h
    | inr t ↦ rw t (λ j m g.
        ⊎_elim
          (λ q. (
            e,
            (
              Memᴰ.append_right p.edges (Memᴰ.head refl),
              subst (λ z. Realises z e) (sym q)
                  (Emits-Realises k e w (ap (λ (x : EdgeKey). x.kind) (sym q) ∙ g)),
            ),
          ))
          (λ n. let (x, (i, r)) = h j n g in (x, (Memᴰ.append_left (e ∷ []) i, r)))
          (Memᴰ.cases_cons m))
  ]

  seen_realised : Kept (after_kafka b)
  seen_realised = build_graph_induction b Kept (record {
    at_start = λ k m g. absurd (Memᴰ.not-nil m);
    at_emit = Kept-emit;
    at_gateway = λ p g h. h;
  })

  emit-seen : (k : EdgeKey) (e : GraphEdge) (p : Progress) → Memᴰ k (emit k e p).seen
  unfolding emit
  emit-seen k e p = elim (Bool-cases (contains p.seen k)) [
    | inl t ↦ rw t ((contains_iff p.seen k).0 t)
    | inr t ↦ rw t (Memᴰ.head refl)
  ]

  emit-keeps :
      (j k : EdgeKey) (e : GraphEdge) (p : Progress) → Memᴰ j p.seen → Memᴰ j (emit k e p).seen
  unfolding emit
  emit-keeps j k e p m = elim (Bool-cases (contains p.seen k)) [
    | inl t ↦ rw t m
    | inr t ↦ rw t (Memᴰ.tail m)
  ]

  consume_step-keeps :
      (j : EdgeKey) (from : Text) (producer : MessageEndpoint) (p : Progress) (s : Sited)
      → Memᴰ j p.seen
      → Memᴰ j (consume_step b from producer p s).seen
  unfolding consume_step
  consume_step-keeps j from producer p (to, consumer) m =
      elim (Bool-cases
        (from == to || message_types_conflict producer.message_type consumer.message_type)) [
          | inl t ↦ rw t m
          | inr t ↦ rw t (emit-keeps j _ _ p m)
        ]

  produce_step-keeps :
      (j : EdgeKey) (p : Progress) (s : Sited) → Memᴰ j p.seen → Memᴰ j (produce_step b p s).seen
  unfolding produce_step
  produce_step-keeps j p (from, producer) m = elim (Bool-cases producer.topic_dynamic) [
    | inl t ↦ simp t m
    | inr t ↦ simp t (
        foldl_inv (λ q. Memᴰ j q.seen) (consume_step b from producer)
          (group (consumes_by_topic d) producer.topic)
          (λ q s _ h. consume_step-keeps j from producer q s h) p m)
  ]

  consume_step-adds :
      (from to : Text) (producer consumer : MessageEndpoint) (p : Progress)
      → from ≢ to
      → message_types_conflict producer.message_type consumer.message_type ≡ false
      → Memᴰ
          (key_of kafka from to producer.id consumer.id)
          (consume_step b from producer p (to, consumer)).seen
  unfolding consume_step
  consume_step-adds from to producer consumer p a c =
      let clash = message_types_conflict producer.message_type consumer.message_type in
      let passes : (from == to || clash) ≡ false = ground (arith, text_beq_iff from to, a) in
      rw passes (emit-seen _ _ p)

  key_seen :
      (from to : Text) (producer consumer : MessageEndpoint)
      → Connects d from to producer consumer
      → Memᴰ (key_of kafka from to producer.id consumer.id) (after_kafka b).seen
  unfolding after_kafka produce_step produces_of
  key_seen from to producer consumer h =
      let key = key_of kafka from to producer.id consumer.id in
      let listed =
        subst (λ z. Memᴰ (to, consumer) (group (consumes_by_topic d) z)) h.topic
          (consumer_listed d to consumer h.consumed h.consumer_role h.consumer_static) in
      let role : text_beq producer.role produce ≡ true =
        (text_beq_iff producer.role produce).1 h.producer_role in
      foldl_reaches (λ q. Memᴰ key q.seen) (produce_step b) (from, producer) (produces_of d)
        (λ q. simp h.producer_static (
          foldl_reaches (λ z. Memᴰ key z.seen) (consume_step b from producer) (to, consumer)
            (group (consumes_by_topic d) producer.topic)
            (λ z. consume_step-adds from to producer consumer z h.apart h.compatible)
            (λ z s k. consume_step-keeps key from producer z s k) listed q))
        (λ q s k. produce_step-keeps key q s k)
        ((Memᴰ-filter (λ (s : Sited). s.1.role == produce) (from, producer) (kafka_endpoints d)).1
          (IsEffective-kafka_endpoints d from producer h.produced, role))
        (after_external b)

  -- No messaging relation is lost: for every producer and consumer that connect, the graph has a
  -- messaging edge between their services that carries their ids.
  pub kafka_complete :
      (from to : Text) (producer consumer : MessageEndpoint)
      → Connects d from to producer consumer
      → (e : GraphEdge) × (Memᴰ e (build_graph b)
          × Realises (key_of kafka from to producer.id consumer.id) e)
  unfolding build_graph
  kafka_complete from to producer consumer h =
      seen_realised (key_of kafka from to producer.id consumer.id)
        (key_seen from to producer consumer h) refl
