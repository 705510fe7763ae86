-- ===== src/Graph/Relations/Examples.antt =====
-- A run of the adapter from persisted relations to edges (domain/graph.py).
use systemlens.Prelude.{◌≡◌, refl, true, false, none, some, [], ◌∷◌, Memᴰ}
use systemlens.Text.{Text, codes, text_beq}
use systemlens.Models.{MessageEndpoint, ArchitectureRelation, rest, serve, call}
use systemlens.Graph.Paths.{Compile}
use systemlens.Graph.Edges.{GraphEdge}
use systemlens.Graph.Edges.Build.{Endpoints}
use systemlens.Graph.Relations.{graph_edges_from_relations, connects_services, kind_of, role_of}
use systemlens.Graph.Relations.Sites.{IsEvidence}
use systemlens.Graph.Relations.Laws.{Asserts, relations_sound, relations_complete}

-- No template constraint is a regular expression.
abbrev no_patterns : Compile
no_patterns pattern = none

abbrev site : Text → Text → Text → MessageEndpoint
site id role in_module = record {
  id = id;
  role = role;
  system = rest;
  topic = codes "GET /items";
  topic_dynamic = false;
  source = codes "code";
  framework = none;
  path = codes "A.java";
  start_line = 7;
  end_line = 9;
  snippet = [];
  in_module = some in_module;
  qualified_name = none;
  message_type = none;
  topic_display = none;
}

abbrev caller : MessageEndpoint
caller = site (codes "c") call (codes "shop")

abbrev served : MessageEndpoint
served = site (codes "s") serve (codes "stock")

abbrev indexed : Endpoints
indexed = (codes "shop", caller ∷ []) ∷ (codes "stock", served ∷ []) ∷ []

abbrev calls_stock : ArchitectureRelation
calls_stock = record {
  id = codes "r";
  source_kind = codes "microservice";
  source_name = codes "shop";
  relation = codes "calls_service";
  target_kind = codes "microservice";
  target_name = codes "stock";
  origin = codes "code";
  confidence = codes "high";
  in_module = some (codes "shop");
  path = some (codes "A.java");
  start_line = some 7;
  end_line = some 9;
  qualified_name = none;
}

caller-IsEvidence : IsEvidence no_patterns indexed calls_stock caller
unfolding role_of kind_of text_beq
caller-IsEvidence = record {
  indexed = (Memᴰ.head refl, refl);
  path = refl;
  line = refl;
  role = refl;
}

stock_connects : connects_services calls_stock ≡ true
unfolding connects_services text_beq
stock_connects = refl

relations_complete_example :
    (e : GraphEdge) × (Memᴰ e (graph_edges_from_relations no_patterns indexed (calls_stock ∷ []))
      × ((e.kind ≡ kind_of calls_stock)
          × ((e.from_service ≡ codes "shop")
              × ((e.to_service ≡ codes "stock") × (e.from_endpoint.id ≡ codes "c")))))
relations_complete_example =
    relations_complete no_patterns indexed (calls_stock ∷ []) calls_stock caller (Memᴰ.head refl)
      stock_connects caller-IsEvidence

abbrev first_edge : GraphEdge
first_edge = relations_complete_example.0

relations_sound_example :
    (r : ArchitectureRelation) × (Memᴰ r (calls_stock ∷ [])
      × Asserts no_patterns indexed r first_edge)
relations_sound_example =
    relations_sound no_patterns indexed (calls_stock ∷ []) first_edge relations_complete_example.1.0
