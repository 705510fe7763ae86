-- ===== src/Graph/Messaging/Examples.antt =====
-- A run of the edges that facts assert (domain/graph.py).
use systemlens.Prelude.{
  ℕ, ◌≡◌, refl, Bool, true, false, Option, none, some, List, [], ◌∷◌, ◌++◌, Memᴰ, Distinct, map,
  contains, inl, Eq, pair_eq, option_eq, filter,
}
use systemlens.Prelude.Dict.{get, group, group_all, push}
use systemlens.Prelude.Seen.{keep_all, keep}
use systemlens.Text.{Text, codes, text_beq, strip, drop_while, rstrip_by, is_space}
use systemlens.Models.{MessageEndpoint, kafka, produce, consume}
use systemlens.Models.Facts.{GraphFact}
use systemlens.MessageTypes.{message_types_conflict}
use systemlens.Graph.Edges.{GraphEdge}
use systemlens.Graph.Edges.Build.{Endpoints, all_endpoints}
use systemlens.Graph.Messaging.{links_of, channel, message_edge, graph_edges_from_facts}
use systemlens.Graph.Messaging.Linked.{IsLink}
use systemlens.Graph.Messaging.Pairs.{Carries}
use systemlens.Graph.Messaging.Laws.{Joins, facts_sound, facts_complete}

abbrev orders : Text
orders = codes "orders"

abbrev point : Text → Text → MessageEndpoint
point id role = record {
  id = id;
  role = role;
  system = kafka;
  topic = orders;
  topic_dynamic = false;
  source = codes "code";
  framework = none;
  path = codes "A.java";
  start_line = 1;
  end_line = 2;
  snippet = [];
  in_module = none;
  qualified_name = none;
  message_type = none;
  topic_display = none;
}

abbrev shops : Endpoints
shops =
    (codes "shop", point (codes "p") produce ∷ [])
    ∷ (codes "bills", point (codes "c") consume ∷ [])
    ∷ []

abbrev asserted : GraphFact
asserted = record {
  id = codes "f";
  fact_type = codes "edge";
  kind = codes "event";
  name = none;
  source_kind = some (codes "service");
  source_name = some (codes "shop");
  target_kind = some (codes "topic");
  target_name = some orders;
  relation = none;
  origin = codes "ai";
  confidence = codes "high";
  evidence_path = none;
  evidence_line = none;
  note = none;
  technology = none;
  metadata = none;
  namespace = codes "ai";
  status = codes "confirmed";
  in_module = none;
  pass_id = none;
  source_revision = none;
}

abbrev received : GraphFact
received = record asserted {
  source_kind = some (codes "topic");
  source_name = some orders;
  target_kind = some (codes "service");
  target_name = some (codes "bills");
}

-- One fact tells the publisher of the channel and the other one its consumer.
linked : IsLink shops (asserted ∷ received ∷ []) (codes "shop") (codes "bills") orders
unfolding channel get contains text_beq strip rstrip_by drop_while is_space all_endpoints
linked =
    IsLink.through asserted received (Memᴰ.head refl) (Memᴰ.tail (Memᴰ.head refl))
      (record {
        accepted = record { edge = refl; status = inl refl; event = refl };
        on = (orders, refl);
        source = record {
          named = refl;
          shown = λ q. cc;
          typed = inl refl;
          indexed = (point (codes "p") produce, Memᴰ.head refl);
        };
        target = record { named = refl; shown = λ q. cc; typed = inl refl };
      })
      (record {
        accepted = record { edge = refl; status = inl refl; event = refl };
        on = (orders, refl);
        source = record { named = refl; shown = λ q. cc; typed = inl refl };
        target = record {
          named = refl;
          shown = λ q. cc;
          typed = inl refl;
          indexed = (point (codes "c") consume, Memᴰ.tail (Memᴰ.head refl));
        };
      })

shop_to_bills :
    Carries shops
      (IsLink shops (asserted ∷ received ∷ []))
      (codes "shop")
      (codes "bills")
      orders
      (point (codes "p") produce)
      (point (codes "c") consume)
unfolding message_types_conflict
shop_to_bills = record {
  linked = linked;
  produced = record {
    listed = unfold all_endpoints in Memᴰ.head refl;
    messaging = refl;
    topic_is = refl;
    role_is = refl;
  };
  consumed = record {
    listed = unfold all_endpoints in Memᴰ.tail (Memᴰ.head refl);
    messaging = refl;
    topic_is = refl;
    role_is = refl;
  };
  compatible = refl;
}

facts_complete_example :
    (e : GraphEdge) × (Memᴰ e (graph_edges_from_facts (asserted ∷ received ∷ []) shops)
      × Joins shops
          (codes "shop")
          (codes "bills")
          (point (codes "p") produce)
          (point (codes "c") consume)
          e)
facts_complete_example =
    facts_complete shops (asserted ∷ received ∷ []) (codes "shop") (codes "bills") orders
      (point (codes "p") produce) (point (codes "c") consume) shop_to_bills

abbrev shop_edge : GraphEdge
shop_edge =
    message_edge (codes "shop") (codes "bills") (point (codes "p") produce)
      (point (codes "c") consume)

edge_there : Memᴰ shop_edge (graph_edges_from_facts (asserted ∷ received ∷ []) shops)
unfolding graph_edges_from_facts links_of keep_all get contains text_beq strip rstrip_by drop_while
    is_space group push group_all filter all_endpoints systemlens.Prelude.pair_beq
    message_types_conflict keep
edge_there = Memᴰ.head refl

facts_sound_example :
    (name : Text) × ((consumer : MessageEndpoint) × ((some (point (codes "c") consume)
          ≡ some consumer)
        × Carries shops
            (IsLink shops (asserted ∷ received ∷ []))
            (codes "shop")
            (codes "bills")
            name
            (point (codes "p") produce)
            consumer))
facts_sound_example = facts_sound shops (asserted ∷ received ∷ []) shop_edge edge_there
