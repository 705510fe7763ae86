-- ===== src/FlowSet/SameMethod/Nodes.antt =====
-- The methods of a file and the endpoints that they own (indexing/code_flows.py).
use systemlens.Prelude.{
  ℕ, suc, Bool, ◌&&◌, ◌||◌, not, Option, none, some, List, [], ◌∷◌, if◌then◌else◌, ◌==◌, contains,
  filter, leb, ltb, pair_eq, option_eq, ℕ_eq,
}
use systemlens.Text.{Text, text_eq, codes, ends_with}
use systemlens.Models.{MessageEndpoint, kafka, rest, produce, consume, serve, call}

-- A method_declaration that is no member of an anonymous class.
pub record MethodNode : Type 0 where
  pub name : Option Text
  pub start_line : ℕ
  pub end_line : ℕ
  -- end_byte - start_byte
  pub size : ℕ
  -- The method has an invocation of `join`.
  pub joins : Bool
  -- The label of its first @Scheduled annotation.
  pub schedule : Option Text

unfoldable pub is_trigger : MessageEndpoint → Bool
is_trigger e = contains {A = Text × Text} ((rest, serve) ∷ (kafka, consume) ∷ []) (e.system, e.role)

unfoldable pub is_effect : MessageEndpoint → Bool
is_effect e = contains {A = Text × Text} ((rest, call) ∷ (kafka, produce) ∷ []) (e.system, e.role)

-- endpoint.module, which the loop takes only if it is not empty
unfoldable pub module_of : MessageEndpoint → Text
module_of e = elim e.in_module [ none ↦ [] | some name ↦ name ]

unfoldable pub is_candidate : MessageEndpoint → Bool
unfolding is_trigger is_effect module_of
is_candidate e =
    e.source == codes "code"
    && ends_with (codes ".java") e.path
    && not (module_of e == [])
    && (is_trigger e || is_effect e)

unfoldable pub encloses : MethodNode → ℕ → Bool
encloses m line = leb m.start_line line && leb line m.end_line

-- The methods of a file with their places, which stand for `id(node)`.
abbrev pub Placed : Type 0
Placed = ℕ × MethodNode

unfoldable pub placed : ℕ → List MethodNode → List Placed
placed i [] = []
placed i (m ∷ ms) = (i, m) ∷ placed (suc i) ms

-- min(candidates, key=lambda node: node.end_byte - node.start_byte)
unfoldable pub smallest : Placed → List Placed → Placed
smallest best [] = best
smallest best (m ∷ ms) = smallest (if ltb m.1.size best.1.size then m else best) ms

unfoldable pub owner_of : List Placed → MessageEndpoint → Option ℕ
unfolding encloses smallest
owner_of methods e = elim (filter (λ m. encloses m.1 e.start_line) methods) [
  | [] ↦ none
  | m ∷ ms ↦ some (smallest m ms).0
]

unfoldable pub local_endpoints : List Placed → ℕ → List MessageEndpoint → List MessageEndpoint
unfolding owner_of
local_endpoints methods i endpoints = filter (λ e. owner_of methods e == some i) endpoints
