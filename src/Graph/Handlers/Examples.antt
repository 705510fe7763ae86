-- ===== src/Graph/Handlers/Examples.antt =====
-- A run of the search for REST calls inside Kafka handlers (domain/graph.py).
use systemlens.Prelude.{ℕ, none, [], ◌∷◌, ◌↔◌, Memᴰ, false}
use systemlens.Text.{Text, codes}
use systemlens.Models.{MessageEndpoint, kafka, rest, consume, call}
use systemlens.Graph.Handlers.{find_outbound_calls_in_consumers}
use systemlens.Graph.Handlers.Laws.{CallsWithin, pair_of, outbound_iff}

abbrev at_lines : Text → Text → Text → ℕ → ℕ → MessageEndpoint
at_lines id role system from to = record {
  id = id;
  role = role;
  system = system;
  topic = codes "t";
  topic_dynamic = false;
  source = codes "code";
  framework = none;
  path = codes "A.java";
  start_line = from;
  end_line = to;
  snippet = [];
  in_module = none;
  qualified_name = none;
  message_type = none;
  topic_display = none;
}

abbrev handler : MessageEndpoint
handler = at_lines (codes "h") consume kafka 10 20

abbrev site : MessageEndpoint
site = at_lines (codes "c") call rest 12 12

outbound_iff_example :
    Memᴰ (pair_of handler site) (find_outbound_calls_in_consumers (handler ∷ site ∷ [])) ↔ (
      Memᴰ handler (handler ∷ site ∷ [])
      × (Memᴰ site (handler ∷ site ∷ []) × CallsWithin handler site))
outbound_iff_example = outbound_iff (handler ∷ site ∷ []) handler site
