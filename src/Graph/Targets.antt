-- ===== src/Graph/Targets.antt =====
-- The resolution of a REST call to one service, of domain/graph.py.
pub mod Laws
use systemlens.Prelude.{
  ℕ, Bool, true, false, ◌&&◌, ◌||◌, not, Option, none, some, List, [], ◌∷◌, ◌++◌, if◌then◌else◌,
  ◌==◌, ltb, filter, any, contains, dedup, map,
}
use systemlens.Prelude.Dict.{Dict}
use systemlens.Text.{Text, text_eq, codes, strip, lower, rstrip_by}
use systemlens.Text.Order.{sort, text_leb}
use systemlens.Models.{MessageEndpoint}
use systemlens.Graph.Hosts.{service_hint_from_host, normalized_host}
use systemlens.Graph.Evidence.{
  explicit_external_service, configured_api_client_domain, host_match, load_balanced_match,
}

pub record RestTargetPolicy : Type 0 where
  pub target_hint : MessageEndpoint → Option Text
  pub external_service : MessageEndpoint → Option Text

abbrev pub default_rest_target_policy : RestTargetPolicy
default_rest_target_policy = record {
  target_hint = λ e. none;
  external_service = explicit_external_service;
}

pub data Status : Type 0 where
  resolved ambiguous external unresolved : Status

pub record RestTargetResolution : Type 0 where
  pub status : Status
  pub hint : Option Text
  pub service : Option Text

-- Python's test of an optional text: the empty text is false.
unfoldable pub truthy : Option Text → Option Text
truthy none = none
truthy (some []) = none
truthy (some (c ∷ s)) = some (c ∷ s)

unfoldable pub external_microservice_name : RestTargetPolicy → MessageEndpoint → Option Text
external_microservice_name rest_policy e = rest_policy.external_service e

-- The evidence of the snippet: the first target URI wins, and an explicit URL never falls back to
-- another marker.
snippet_hint : Option (ℕ × Text) → Option (ℕ × Text) → MessageEndpoint → Option Text
snippet_hint (some (j, lb)) none call = some (lower lb)
snippet_hint (some (j, lb)) (some (i, host)) call =
    if ltb j i then some (lower lb) else service_hint_from_host host
snippet_hint none (some (i, host)) call = service_hint_from_host host
snippet_hint none none call = configured_api_client_domain call

unfoldable pub rest_target_service_hint : RestTargetPolicy → MessageEndpoint → Option Text
unfolding truthy snippet_hint
rest_target_service_hint rest_policy call = elim (truthy (rest_policy.target_hint call)) [
  | some hint ↦ some hint
  | none ↦ snippet_hint (load_balanced_match call) (host_match call) call
]

-- value.strip().casefold().rstrip("."), which normalizes a host the same way
unfoldable pub normalized_service_alias : Text → Text
normalized_service_alias value = normalized_host value

-- One item of the aliases names an indexed service for a hint.
pub alias_fits : List Text → Text → Text × List Text → Bool
alias_fits service_names hint (service, aliases) =
    contains service_names service && any (λ alias. normalized_service_alias alias == hint) aliases

unfoldable pub services_matching_hint : List Text → Option Text → Dict Text (List Text) → List Text
unfolding alias_fits filter
services_matching_hint service_names none service_aliases = []
services_matching_hint service_names (some hint) service_aliases =
    let normalized_hint = normalized_service_alias hint in
    sort text_leb (
      dedup (
        filter (λ service. normalized_service_alias service == normalized_hint) service_names
        ++ map (λ item. item.0)
            (filter (alias_fits service_names normalized_hint) service_aliases)))

-- The resolution that a list of matches gives.
resolution_of : Option Text → List Text → RestTargetResolution
resolution_of hint [] = record { status = unresolved; hint = hint; service = none }
resolution_of hint (match ∷ []) = record { status = resolved; hint = hint; service = some match }
resolution_of hint (match ∷ other ∷ matches) = record {
  status = ambiguous;
  hint = hint;
  service = none;
}

unfoldable pub resolve_rest_target_service :
    RestTargetPolicy → Dict Text (List Text) → MessageEndpoint → List Text → RestTargetResolution
unfolding resolution_of
resolve_rest_target_service rest_policy service_aliases call service_names =
    elim (truthy (external_microservice_name rest_policy call)) [
      | some name ↦ record { status = external; hint = none; service = some name }
      | none ↦
          let hint = rest_target_service_hint rest_policy call in
          resolution_of hint (services_matching_hint service_names hint service_aliases)
    ]
