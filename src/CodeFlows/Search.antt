-- ===== src/CodeFlows/Search.antt =====
-- _shortest_method_path of application/code_flows.py: the search of the persisted call graph. The
-- callers keep the edges between indexed methods only, so that `methods[id]` is there; a missing one
-- would have an empty name here.
pub mod Walks
pub mod Bound
pub mod Correct
mod Examples
use systemlens.Prelude.{
  ℕ, zero, suc, Bool, true, false, ◌&&◌, Option, none, some, List, [], ◌∷◌, ◌++◌, if◌then◌else◌,
  ◌==◌, filter, map, foldl, contains, length, nat_beq, ltb, ℕ_eq,
}
use systemlens.Prelude.Dict.{Dict, get, group, group_all, keys}
use systemlens.Text.{Text, text_eq}
use systemlens.Text.Order.{sort, text_leb}
use systemlens.CodeFlows.{IntegrationMethod, CallGraphEdge, entry_dispatch_allowed}

abbrev pub Methods : Type 0
Methods = Dict Text IntegrationMethod

abbrev pub Adjacency : Type 0
Adjacency = Dict Text (List CallGraphEdge)

-- An item of the queue: the method, the path of methods and the path of edges to it.
pub record Route : Type 0 where
  pub at_method : Text
  pub method_path : List Text
  pub edge_path : List CallGraphEdge

pub record Progress : Type 0 where
  pub queue : List Route
  pub visited : List Text

-- The edges between indexed methods, by their caller.
unfoldable pub adjacency_of : Methods → List CallGraphEdge → Adjacency
adjacency_of methods edges =
    group_all (λ e. e.caller_id) (λ e. e) []
      (filter (λ e. contains (keys methods) e.caller_id && contains (keys methods) e.callee_id)
        edges)

qualified : Option IntegrationMethod → Text
qualified none = []
qualified (some m) = m.qualified_method

unfoldable pub method_name : Methods → Text → Text
unfolding qualified
method_name methods id = qualified (get methods id)

-- key=lambda item: (item.path, item.line, item.callee_id)
unfoldable pub edge_leb : CallGraphEdge → CallGraphEdge → Bool
edge_leb a b =
    if a.path == b.path
    then if nat_beq a.line b.line then text_leb a.callee_id b.callee_id else ltb a.line b.line
    else text_leb a.path b.path

module _ (methods : Methods) (adjacency : Adjacency) (entry_method : Text) where
  unfoldable pub call_graph_edge_allowed : CallGraphEdge → Bool
  unfolding method_name
  call_graph_edge_allowed edge =
      entry_dispatch_allowed entry_method (method_name methods edge.caller_id)
        (method_name methods edge.callee_id)
        (map (λ sibling. method_name methods sibling.callee_id)
          (filter
            (λ sibling.
              sibling.path == edge.path
              && nat_beq sibling.line edge.line
              && contains (keys methods) sibling.callee_id)
            (group adjacency edge.caller_id)))

  -- The edges that the loop over one method follows, in its order.
  unfoldable pub outgoing : Text → List CallGraphEdge
  unfolding call_graph_edge_allowed edge_leb
  outgoing current = filter call_graph_edge_allowed (sort edge_leb (group adjacency current))

abbrev pub extended : Route → CallGraphEdge → Route
extended r edge = record {
  at_method = edge.callee_id;
  method_path = r.method_path ++ edge.callee_id ∷ [];
  edge_path = r.edge_path ++ edge ∷ [];
}

unfoldable pub enqueue : Route → Progress → CallGraphEdge → Progress
enqueue r p edge =
    if contains p.visited edge.callee_id
    then p
    else record { queue = p.queue ++ extended r edge ∷ []; visited = edge.callee_id ∷ p.visited }

module _ (next : Text → List CallGraphEdge) (target : Text) where
  -- while queue: `none` is a search that the fuel stops, `some none` is the source's None.
  unfoldable pub search : ℕ → Progress → Option (Option Route)
  unfolding enqueue
  search zero p = none
  search (suc fuel) p = elim p.queue [
    | [] ↦ some none
    | r ∷ rest ↦ elim (r.at_method == target) [
      | true ↦ some (some r)
      | false ↦
          search fuel
            (foldl (enqueue r) (record { queue = rest; visited = p.visited }) (next r.at_method))
    ]
  ]

abbrev pub begin : Text → Progress
begin start = record {
  queue = record { at_method = start; method_path = start ∷ []; edge_path = [] } ∷ [];
  visited = start ∷ [];
}

abbrev pub callees_of : Adjacency → List Text
callees_of [] = []
callees_of ((id, edges) ∷ adjacency) = map (λ e. e.callee_id) edges ++ callees_of adjacency

-- One round for the start and one for each edge are enough.
unfoldable pub shortest_method_path :
    Methods → Adjacency → Text → Text → Text → Option (Option Route)
unfolding outgoing search
shortest_method_path methods adjacency entry_method start target =
    search (outgoing methods adjacency entry_method) target
      (suc (suc (length (callees_of adjacency)))) (begin start)
