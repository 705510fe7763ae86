-- ===== src/DependencyAnalysis/Laws.antt =====
-- The dependency graph and the interaction graph use the same messaging points
-- (application/dependency_analysis.py and domain/graph.py).
use systemlens.Prelude.{◌≡◌, refl, sym, subst, Memᴰ, ◌↔◌}
use systemlens.Text.{Text}
use systemlens.Models.{MessageEndpoint}
use systemlens.Graph.Edges.Build.{Endpoints, kafka_endpoints, manifest_services}
use systemlens.Graph.Edges.Kafka.{
  IsEffective, kafka_endpoints-IsEffective, IsEffective-kafka_endpoints,
}
use systemlens.DependencyAnalysis.{effective_kafka_endpoints, services_with_manifest}

same_points : (d : Endpoints) → effective_kafka_endpoints d ≡ kafka_endpoints d
unfolding effective_kafka_endpoints services_with_manifest kafka_endpoints manifest_services
same_points d = refl

-- The dependency graph uses a messaging point of a service exactly if it is an indexed Kafka point
-- and, where a manifest has Kafka points of the service, is one of the manifest; and its points are
-- the ones that build_graph uses.
pub effective_kafka_iff :
    (d : Endpoints) (service : Text) (e : MessageEndpoint)
    → (Memᴰ (service, e) (effective_kafka_endpoints d) ↔ IsEffective d service e)
      × (effective_kafka_endpoints d ≡ kafka_endpoints d)
effective_kafka_iff d service e =
    let same = same_points d in
    (
      (
        λ m. kafka_endpoints-IsEffective d service e (subst (Memᴰ (service, e)) same m),
        λ h. subst (Memᴰ (service, e)) (sym same) (IsEffective-kafka_endpoints d service e h),
      ),
      same,
    )
