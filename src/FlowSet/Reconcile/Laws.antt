-- ===== src/FlowSet/Reconcile/Laws.antt =====
-- When the reconciliation calls a flow complete (indexing/code_flows.py).
use systemlens.Prelude.{Option, some, List, [], ◌∷◌, option_eq, pair_eq}
use systemlens.Text.{Text, text_eq}
use systemlens.Models.{MessageEndpoint}
use systemlens.Graph.Edges.{GraphEdge}
use systemlens.FlowSet.Reconcile.{first_of}
use systemlens.FlowSet.Reconcile.Supports.{Supported}

-- Every endpoint of the list is supported between its neighbours; `p` stands before the list.
abbrev pub AllSupported :
    Text → List GraphEdge → Option MessageEndpoint → List MessageEndpoint → Type 0
unfolding first_of
AllSupported name edges p [] = Unit
AllSupported name edges p (e ∷ es) =
    Supported name edges p e (first_of es) × AllSupported name edges (some e) es
