-- ===== src/Models/Examples.antt =====
-- Runs of the disambiguation of ids and of the merge of facts (domain/models.py).
use mathlib.Core.List.Memᴰ
use systemlens.Prelude.{
  false, Option, none, some, List, [], ◌∷◌, ◌≡◌, ◌≢◌, refl, ap, Distinct, map, contains,
}
use systemlens.Text.{Text, text_eq, codes, text_beq}
use systemlens.Models.{MessageEndpoint, kafka, produce}
use systemlens.Models.EndpointIds.{endpoint_ids}
use systemlens.Models.UniqueIds.{ensure_unique_ids, ensure_unique_from, chosen_id, hashed}
use systemlens.Models.UniqueIds.Laws.{Renamed, ensure_unique_total}
use systemlens.Models.Facts.{GraphFact, Value}

abbrev sighting : Text → Text → MessageEndpoint
sighting id path = record {
  id = id;
  role = produce;
  system = kafka;
  topic = codes "orders";
  topic_dynamic = false;
  source = codes "code";
  framework = none;
  path = path;
  start_line = 1;
  end_line = 2;
  snippet = [];
  in_module = none;
  qualified_name = none;
  message_type = none;
  topic_display = none;
}

abbrev digest_of : MessageEndpoint → Text
digest_of e = e.path

abbrev sightings : List MessageEndpoint
sightings =
    sighting (codes "a") (codes "h")
    ∷ sighting (codes "a") (codes "h")
    ∷ sighting (codes "a") (codes "h")
    ∷ []

-- The second item of one id takes the digest, the third one a number.
renamed_sightings :
    ensure_unique_ids (endpoint_ids digest_of) sightings
    ≡ some (
        sighting (codes "a") (codes "h")
        ∷ sighting (codes "a-h") (codes "h")
        ∷ sighting (codes "a-h-2") (codes "h")
        ∷ [])
unfolding ensure_unique_ids endpoint_ids ensure_unique_from chosen_id contains text_beq hashed
    systemlens.Text.Decimal.decimal
renamed_sightings = refl

ensure_unique_total_example :
    (r : List MessageEndpoint) × ((ensure_unique_ids (endpoint_ids digest_of) sightings ≡ some r)
      × (Renamed (endpoint_ids digest_of) sightings r
          × Distinct (map (endpoint_ids digest_of).id r)))
ensure_unique_total_example = ensure_unique_total (endpoint_ids digest_of) sightings

abbrev two_sightings : List MessageEndpoint
two_sightings = sighting (codes "a") [] ∷ sighting (codes "b") [] ∷ []

apart : (codes "a") ≢ (codes "b")
unfolding text_beq
apart e = cc (ap (λ t. text_beq t (codes "b")) e)

abbrev fact : Text → Text → Option Text → GraphFact
fact id confidence note = record {
  id = id;
  fact_type = codes "node";
  kind = codes "service";
  name = some (codes "orders");
  source_kind = none;
  source_name = none;
  target_kind = none;
  target_name = none;
  relation = none;
  origin = codes "manifest";
  confidence = confidence;
  evidence_path = none;
  evidence_line = none;
  note = note;
  technology = none;
  metadata = some ((codes "owner", Value.str (codes "team")) ∷ []);
  namespace = codes "manual";
  status = codes "confirmed";
  in_module = none;
  pass_id = none;
  source_revision = none;
}

abbrev strong : GraphFact
strong = fact (codes "f") (codes "high") none

abbrev weak : GraphFact
weak = fact (codes "f") (codes "low") (some (codes "seen"))
