-- ===== src/DependencyAnalysis/Examples.antt =====
-- A run of the choice of messaging points (application/dependency_analysis.py).
use systemlens.Prelude.{none, [], ◌∷◌, false}
use systemlens.Text.{codes}
use systemlens.Models.{MessageEndpoint, kafka, produce}
use systemlens.Graph.Edges.Build.{Endpoints}

abbrev published : MessageEndpoint
published = record {
  id = codes "p";
  role = produce;
  system = kafka;
  topic = codes "orders";
  topic_dynamic = false;
  source = codes "code";
  framework = none;
  path = codes "A.java";
  start_line = 1;
  end_line = 2;
  snippet = [];
  in_module = none;
  qualified_name = none;
  message_type = none;
  topic_display = none;
}

abbrev shop : Endpoints
shop = (codes "shop", published ∷ []) ∷ []
