-- ===== src/CodeFlows/Modules.antt =====
-- application/code_flows.py: the modules that the outputs of a flow reach, and the counts by module.
pub mod Laws
use systemlens.Prelude.{
  ℕ, ◌+◌, Bool, true, false, ◌&&◌, not, Option, none, some, List, [], ◌∷◌, ◌++◌, if◌then◌else◌,
  ◌==◌, filter, map, dedup, length, Eq, pair_eq, option_eq,
}
use systemlens.Prelude.Dict.{Dict, group, push, values}
use systemlens.Text.{Text, text_eq, codes}
use systemlens.Text.Order.{sort, text_leb}
use systemlens.Models.{MessageEndpoint, serve, consume}
use systemlens.CodeFlows.{CodeFlow}
use systemlens.CodeFlows.Internal.{
  EndpointsById, by_id, is_input, is_output, is_internal_module_flow,
}
use systemlens.CodeFlows.Tree.{output_endpoints, target_role}

-- (system, topic, role)
abbrev pub TargetKey : Type 0
TargetKey = Text × (Text × Text)

-- A module that is there and not empty.
named_module : Option Text → Option Text
named_module none = none
named_module (some []) = none
named_module (some (c ∷ s)) = some (c ∷ s)

-- index[key].add(endpoint.module), over the endpoints with a module that serve or consume
unfoldable pub target_modules_index :
    Dict TargetKey (List Text) → List MessageEndpoint → Dict TargetKey (List Text)
unfolding named_module is_input
target_modules_index index [] = index
target_modules_index index (e ∷ es) =
    target_modules_index
      (elim (named_module e.in_module) [
        | none ↦ index
        | some m ↦ if is_input e then push index (e.system, (e.topic, e.role)) m else index
      ])
      es

reached : Dict TargetKey (List Text) → Text → List MessageEndpoint → List Text
unfolding target_role
reached index own [] = []
reached index own (e ∷ es) =
    filter (λ m. not (m == own)) (group index (e.system, (e.topic, target_role e.role)))
    ++ reached index own es

-- sorted({...})
unfoldable pub target_modules : CodeFlow → EndpointsById → Dict TargetKey (List Text) → List Text
unfolding reached
target_modules flow d index =
    sort text_leb (dedup (reached index flow.in_module (output_endpoints d flow)))

pub record ModuleCounts : Type 0 where
  pub internal_flows : ℕ
  pub inputs : ℕ
  pub outputs : ℕ

modules_of : List MessageEndpoint → List Text
modules_of [] = []
modules_of (e ∷ es) =
    let rest = modules_of es in elim e.in_module [ none ↦ rest | some m ↦ m ∷ rest ]

unfoldable pub module_names : List CodeFlow → List MessageEndpoint → List Text
unfolding modules_of
module_names flows endpoints =
    sort text_leb (dedup (modules_of endpoints ++ map (λ f. f.in_module) flows))

unfoldable pub counts_of : List CodeFlow → List MessageEndpoint → Text → ModuleCounts
counts_of flows endpoints name = record {
  internal_flows = length (filter (λ f. is_internal_module_flow f (by_id [] endpoints) name) flows);
  inputs = length (filter (λ e. e.in_module == some name && is_input e) endpoints);
  outputs = length (filter (λ e. e.in_module == some name && is_output e) endpoints);
}

total : List (Text × ModuleCounts) → ℕ
total [] = 0
total ((name, c) ∷ counts) = c.internal_flows + total counts

-- The counts of each module and the total of the internal flows.
unfoldable pub internal_flow_stats_by_module :
    List CodeFlow → List MessageEndpoint → Dict Text ModuleCounts × ℕ
unfolding total module_names counts_of
internal_flow_stats_by_module flows endpoints =
    let counts = map (λ m. (m, counts_of flows endpoints m)) (module_names flows endpoints) in
    (counts, total counts)
