-- ===== src/Graph/Evidence.antt =====
-- The markers that the scanner leaves in an endpoint's snippet, as domain/graph.py reads them.
use systemlens.Prelude.{
  ℕ, Bool, true, false, ◌&&◌, not, Option, none, some, List, [], ◌∷◌, if◌then◌else◌, contains,
}
use systemlens.Text.{Text, text_eq, codes, is_space, is_alnum, lower}
use systemlens.Text.Regex.{after_literal, run1, longest, boundary, search}
use systemlens.Models.{MessageEndpoint}
use systemlens.Graph.Hosts.{dns_char, url_host_at}

-- `literal([^\s]+)` at one place
word_after : Text → Option ℕ → Text → Option Text
unfolding is_space
word_after literal before s = elim (after_literal literal s) [
  | none ↦ none
  | some r ↦ run1 (λ c. not (is_space c)) r
]

-- A run of `[a-z0-9-]` that begins with a letter or a digit.
label_run : (ℕ → Option ℕ → Bool) → Text → Option Text
label_run stop [] = none
label_run stop (c ∷ s) =
    if is_alnum c
    then elim (longest dns_char stop c s) [ none ↦ none | some r ↦ some (c ∷ r) ]
    else none

-- `\bsystemlens-api-domain:([a-z0-9][a-z0-9-]*)\b`
domain_at : Option ℕ → Text → Option Text
unfolding label_run
domain_at before s =
    if boundary before (some b's')
    then elim (after_literal (codes "systemlens-api-domain:") s) [
      | none ↦ none
      | some r ↦ label_run (λ last next. boundary (some last) next) r
    ]
    else none

-- `lb://([a-z0-9](?:[a-z0-9-]*[a-z0-9])?)\b`
load_balanced_at : Option ℕ → Text → Option Text
unfolding label_run
load_balanced_at before s = elim (after_literal (codes "lb://") s) [
  | none ↦ none
  | some r ↦ label_run (λ last next. is_alnum last && boundary (some last) next) r
]

-- match.group(1)
group : Option (ℕ × Text) → Option Text
group none = none
group (some (i, r)) = some r

lowered : Option Text → Option Text
lowered none = none
lowered (some s) = some (lower s)

unfoldable pub explicit_external_service : MessageEndpoint → Option Text
unfolding word_after group lowered
explicit_external_service e =
    lowered (group (search (word_after (codes "systemlens-external-microservice:")) e.snippet))

unfoldable pub configured_api_client_domain : MessageEndpoint → Option Text
unfolding domain_at group lowered
configured_api_client_domain e = lowered (group (search domain_at e.snippet))

unfoldable pub openapi_contract_evidence : MessageEndpoint → Option Text
unfolding word_after group
openapi_contract_evidence e =
    group (search (word_after (codes "systemlens-openapi-contract:")) e.snippet)

-- _URL_HOST_RE.search and _LOAD_BALANCED_URI_RE.search, with their positions
unfoldable pub host_match : MessageEndpoint → Option (ℕ × Text)
host_match e = search (λ before s. url_host_at s) e.snippet

unfoldable pub load_balanced_match : MessageEndpoint → Option (ℕ × Text)
unfolding load_balanced_at
load_balanced_match e = search load_balanced_at e.snippet

abbrev pub route_declaring_http_clients : List Text
route_declaring_http_clients =
    codes "resttemplate"
    ∷ codes "webclient"
    ∷ codes "restclient"
    ∷ codes "http-interface"
    ∷ codes "feign"
    ∷ []

declares_route : Option Text → Bool
declares_route none = false
declares_route (some framework) = contains route_declaring_http_clients framework

is_some : Option Text → Bool
is_some none = false
is_some (some s) = true

unfoldable pub is_configured_api_client_call : MessageEndpoint → Bool
unfolding declares_route is_some
is_configured_api_client_call e =
    not (declares_route e.framework) && is_some (configured_api_client_domain e)
