-- ===== src/CodeFlows/Search/Examples.antt =====
-- Runs of the search of the call graph and of its dispatch rule (application/code_flows.py and
-- domain/code_flows.py).
use systemlens.Prelude.{◌≡◌, ◌≢◌, ◌↔◌, false, Option, none, some, List, [], ◌∷◌}
use systemlens.Text.{Text, codes}
use systemlens.CodeFlows.{IntegrationMethod, CallGraphEdge, owner, entry_dispatch_allowed}
use systemlens.CodeFlows.Dispatch.{IsOverride, entry_dispatch_iff}
use systemlens.CodeFlows.Search.{Methods, Adjacency, Route, outgoing, shortest_method_path}
use systemlens.CodeFlows.Search.Correct.{Answers, shortest_path_Answers}

abbrev method : Text → Text → IntegrationMethod
method id name = record {
  id = id;
  in_module = codes "shop";
  qualified_method = name;
  path = codes "A.java";
  start_line = 1;
  end_line = 9;
  input_endpoint_ids = [];
  output_endpoint_ids = [];
  parameter_types = none;
}

abbrev methods : Methods
methods =
    (codes "a", method (codes "a") (codes "A.go"))
    ∷ (codes "b", method (codes "b") (codes "B.run"))
    ∷ []

abbrev calls_b : CallGraphEdge
calls_b = record {
  caller_id = codes "a";
  callee_id = codes "b";
  path = codes "A.java";
  line = 4;
  dispatch_confidence = codes "high";
  inferred = false;
}

abbrev graph : Adjacency
graph = (codes "a", calls_b ∷ []) ∷ []

shortest_path_Answers_example :
    (answer : Option Route) × ((shortest_method_path methods graph
          (codes "A.go")
          (codes "a")
          (codes "b")
        ≡ some answer)
      × Answers (outgoing methods graph (codes "A.go")) (codes "a") (codes "b") answer)
shortest_path_Answers_example =
    shortest_path_Answers methods graph (codes "A.go") (codes "a") (codes "b")

abbrev siblings : List Text
siblings = codes "A.run" ∷ codes "B.run" ∷ []

entry_dispatch_iff_example :
    (entry_dispatch_allowed (codes "A.go") (codes "Base.go") (codes "B.run") siblings ≡ false) ↔ (
      (owner (codes "Base.go") ≢ owner (codes "A.go"))
      × (((m : Text) × (IsOverride (codes "B.run") siblings m × (owner m ≡ owner (codes "A.go"))))
          × (((m : Text) × (IsOverride (codes "B.run") siblings m
                  × (owner m ≢ owner (codes "A.go"))))
              × (owner (codes "B.run") ≢ owner (codes "A.go")))))
entry_dispatch_iff_example =
    entry_dispatch_iff (codes "A.go") (codes "Base.go") (codes "B.run") siblings
