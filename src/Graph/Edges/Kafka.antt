-- ===== src/Graph/Edges/Kafka.antt =====
-- The messaging edges of build_graph (domain/graph.py): exactly the compatible pairs of a
-- concrete topic, after the manifests had their say.
use mathlib.Core.List.Memᴰ
use systemlens.Prelude.{
  Bool, true, false, ◌&&◌, ◌||◌, not, ◌==◌, ◌≡◌, ◌≢◌, subst, contains, contains_iff, filter, map,
  Memᴰ, Memᴰ-filter, Memᴰ-dedup, Bool-cases, inl, inr, arith,
}
use systemlens.Text.{Text, text_eq, text_beq, text_beq_iff, codes}
use systemlens.Models.{MessageEndpoint, kafka, produce, consume}
use systemlens.MessageTypes.{message_types_conflict}
use systemlens.Graph.Edges.{key_eq}
use systemlens.Graph.Edges.Build.{
  Endpoints, Sited, all_endpoints, manifest_services, kafka_endpoints,
}

-- An integration point that the messaging rules may use: Kafka, and of a manifest where one
-- describes the service.
pub record IsEffective (d : Endpoints) (service : Text) (e : MessageEndpoint) : Type 0 where
  pub listed : Memᴰ (service, e) (all_endpoints d)
  pub messaging : e.system ≡ kafka
  pub authority :
      (other : MessageEndpoint)
      → Memᴰ (service, other) (all_endpoints d)
      → other.system ≡ kafka
      → other.source ≡ codes "manifest"
      → e.source ≡ codes "manifest"

-- A producer and a consumer that the graph connects.
pub record Connects (d : Endpoints) (from to : Text) (producer consumer : MessageEndpoint)
    : Type 0 where
  pub produced : IsEffective d from producer
  pub consumed : IsEffective d to consumer
  pub producer_role : producer.role ≡ produce
  pub consumer_role : consumer.role ≡ consume
  pub producer_static : producer.topic_dynamic ≡ false
  pub consumer_static : consumer.topic_dynamic ≡ false
  pub topic : consumer.topic ≡ producer.topic
  pub apart : from ≢ to
  pub compatible : message_types_conflict producer.message_type consumer.message_type ≡ false

module _ (d : Endpoints) where
  abbrev in_manifest : Sited → Bool
  in_manifest s = s.1.system == kafka && s.1.source == codes "manifest"

  abbrev effective : Sited → Bool
  effective s =
      s.1.system == kafka
      && (not (contains (manifest_services d) s.0) || s.1.source == codes "manifest")

  manifest_services_iff :
      (service : Text) (other : MessageEndpoint)
      → Memᴰ (service, other) (all_endpoints d)
      → other.system ≡ kafka
      → other.source ≡ codes "manifest"
      → contains (manifest_services d) service ≡ true
  unfolding manifest_services
  manifest_services_iff service other m k s = (contains_iff (manifest_services d) service).1 (
      (Memᴰ-dedup service (map (λ (s : Sited). s.0) (filter in_manifest (all_endpoints d)))).1 (
        Memᴰ.map (λ (s : Sited). s.0)
          ((Memᴰ-filter in_manifest (service, other) (all_endpoints d)).1 (
            m,
            ground (
              arith,
              text_beq_iff other.system kafka,
              text_beq_iff other.source (codes "manifest"),
            ),
          ))))

  pub kafka_endpoints-IsEffective :
      (service : Text) (e : MessageEndpoint)
      → Memᴰ (service, e) (kafka_endpoints d)
      → IsEffective d service e
  unfolding kafka_endpoints
  kafka_endpoints-IsEffective service e m =
      let (n, t) = (Memᴰ-filter effective (service, e) (all_endpoints d)).0 m in
      record {
        listed = n;
        messaging = ground (arith, text_beq_iff e.system kafka);
        authority = λ other k s r. ground (
          arith,
          manifest_services_iff service other k s r,
          text_beq_iff e.source (codes "manifest"),
        );
      }

  manifest_service_of :
      (service : Text)
      → contains (manifest_services d) service ≡ true
      → (other : MessageEndpoint) × (Memᴰ (service, other) (all_endpoints d)
          × ((other.system ≡ kafka) × (other.source ≡ codes "manifest")))
  unfolding manifest_services
  manifest_service_of service h =
      let (s, m, e) =
        Memᴰ.of_map (λ (s : Sited). s.0) (filter in_manifest (all_endpoints d))
          ((Memᴰ-dedup service (map (λ (s : Sited). s.0) (filter in_manifest (all_endpoints d)))).0
            ((contains_iff (manifest_services d) service).0 h)) in
      let (n, t) = (Memᴰ-filter in_manifest s (all_endpoints d)).0 m in
      (
        s.1,
        (
          subst (λ z. Memᴰ (z, s.1) (all_endpoints d)) e n,
          (
            ground (arith, text_beq_iff s.1.system kafka),
            ground (arith, text_beq_iff s.1.source (codes "manifest")),
          ),
        ),
      )

  pub IsEffective-kafka_endpoints :
      (service : Text) (e : MessageEndpoint)
      → IsEffective d service e
      → Memᴰ (service, e) (kafka_endpoints d)
  unfolding kafka_endpoints
  IsEffective-kafka_endpoints service e h =
      let allowed : (not (contains (manifest_services d) service)
            || text_beq e.source (codes "manifest"))
          ≡ true =
        elim (Bool-cases (contains (manifest_services d) service)) [
          | inl t ↦
              let (other, (m, (k, s))) = manifest_service_of service t in
              ground (arith, text_beq_iff e.source (codes "manifest"), h.authority other m k s)
          | inr t ↦ ground arith
        ] in
      (Memᴰ-filter effective (service, e) (all_endpoints d)).1
        (h.listed, ground (arith, text_beq_iff e.system kafka, h.messaging, allowed))
