-- ===== src/DependencyAnalysis.antt =====
-- application/dependency_analysis.py: the messaging points that the dependency graph uses, and the
-- microservices that it knows. A set is a list without repetitions.
mod Examples
pub mod Laws
use systemlens.Prelude.{
  Bool, ◌&&◌, ◌||◌, not, List, [], ◌∷◌, ◌++◌, ◌==◌, filter, map, contains, dedup,
}
use systemlens.Prelude.Dict.{Dict, keys}
use systemlens.Text.{Text, text_eq, codes}
use systemlens.Models.{kafka}
use systemlens.Graph.Edges.Build.{Endpoints, Sited, all_endpoints}

unfoldable pub services_with_manifest : Endpoints → List Text
services_with_manifest d = dedup (
    map (λ (s : Sited). s.0)
      (filter (λ (s : Sited). s.1.system == kafka && s.1.source == codes "manifest")
        (all_endpoints d)))

unfoldable pub effective_kafka_endpoints : Endpoints → List Sited
unfolding services_with_manifest
effective_kafka_endpoints d =
    filter
      (λ (s : Sited).
        s.1.system == kafka
        && (not (contains (services_with_manifest d) s.0) || s.1.source == codes "manifest"))
      (all_endpoints d)

-- set(endpoints_by_service) | set(modules_by_service)
unfoldable pub known_microservices {ℓ} : {M : Type ℓ} → Endpoints → Dict Text M → List Text
known_microservices endpoints modules = dedup (keys endpoints ++ keys modules)
