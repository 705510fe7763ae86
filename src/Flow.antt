-- ===== src/Flow.antt =====
-- application/flow.py: the sites of one topic or route. Python's set of topics is a list without
-- repetitions; the one place where the source reads it in an order sorts it.
pub mod Laws
mod Examples
use systemlens.Prelude.{
  ℕ, Bool, true, false, ◌&&◌, Option, none, some, List, [], ◌∷◌, ◌++◌, if◌then◌else◌, ◌==◌, filter,
  contains, dedup, foldl, Eq, pair_eq, option_eq, map,
}
use systemlens.Prelude.Dict.{Dict, group_all}
use systemlens.Text.{Text, text_eq, lower, infix_of}
use systemlens.Text.Order.{sort, text_leb}
use systemlens.Models.{MessageEndpoint}

-- The service is None outside a federation.
pub record FlowSite : Type 0 where
  pub service : Option Text
  pub endpoint : MessageEndpoint

pub record FlowResult : Type 0 where
  pub query : Text
  pub resolved_topic : Text
  pub sites : List FlowSite
  pub warnings : List Text

abbrev pub Services : Type 0
Services = Dict (Option Text) (List MessageEndpoint)

unfoldable pub group_endpoints_by_module_for_flow : List MessageEndpoint → Services
group_endpoints_by_module_for_flow endpoints = group_all (λ e. e.in_module) (λ e. e) [] endpoints

unfoldable pub topic_matches : Text → List Text → List Text
unfolding sort
topic_matches query all_topics =
    sort text_leb (filter (λ topic. infix_of (lower query) (lower topic)) all_topics)

only : List Text → Option Text
only [] = none
only (t ∷ []) = some t
only (t ∷ u ∷ ts) = none

unfoldable pub resolve_topic : Text → List Text → Option Text
unfolding only
resolve_topic query all_topics =
    if contains all_topics query then some query else only (topic_matches query all_topics)

-- The rounds of the two nested loops, in their order.
abbrev pub tagged : Option Text → List MessageEndpoint → List FlowSite
tagged service [] = []
tagged service (e ∷ es) = record { service = service; endpoint = e } ∷ tagged service es

abbrev pub all_sites : Services → List FlowSite
all_sites [] = []
all_sites ((service, endpoints) ∷ d) = tagged service endpoints ++ all_sites d

unfoldable pub all_topics : Services → List Text
all_topics d = dedup (map (λ s. s.endpoint.topic) (all_sites d))

unfoldable pub site_key : FlowSite → Option Text × Text
site_key s = (s.service, s.endpoint.id)

pub record Trace : Type 0 where
  pub sites : List FlowSite
  pub seen_sites : List (Option Text × Text)

unfoldable pub visit : Text → Trace → FlowSite → Trace
unfolding site_key
visit resolved t s =
    if s.endpoint.topic == resolved
    then if contains t.seen_sites (site_key s)
      then t
      else record { sites = t.sites ++ s ∷ []; seen_sites = site_key s ∷ t.seen_sites }
    else t

unfoldable pub trace_sites : Text → Services → Trace
trace_sites resolved d =
    foldl (visit resolved) (record { sites = []; seen_sites = [] }) (all_sites d)

-- `none` is FlowError.
unfoldable pub trace_flow : Text → Services → List Text → Option FlowResult
unfolding all_topics
trace_flow query d warnings = elim (resolve_topic query (all_topics d)) [
  | none ↦ none
  | some resolved ↦ some (record {
    query = query;
    resolved_topic = resolved;
    sites = (trace_sites resolved d).sites;
    warnings = warnings;
  })
]
