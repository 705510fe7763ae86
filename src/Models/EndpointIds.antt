-- ===== src/Models/EndpointIds.antt =====
-- ensure_unique_endpoint_ids of domain/models.py: the shared loop over message endpoints. `digest`
-- is the first eight characters of the SHA-256 of the endpoint's fields.
use systemlens.Prelude.{Option, List, refl}
use systemlens.Text.{Text}
use systemlens.Models.{MessageEndpoint}
use systemlens.Models.UniqueIds.{Identified, ensure_unique_ids}

unfoldable pub endpoint_ids : (MessageEndpoint → Text) → Identified MessageEndpoint
endpoint_ids digest = record {
  id = λ e. e.id;
  with_id = λ t e. record e { id = t };
  id-with_id = λ t e. refl;
  digest = digest;
}

unfoldable pub ensure_unique_endpoint_ids :
    (MessageEndpoint → Text) → List MessageEndpoint → Option (List MessageEndpoint)
unfolding endpoint_ids
ensure_unique_endpoint_ids digest endpoints = ensure_unique_ids (endpoint_ids digest) endpoints
