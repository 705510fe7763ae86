-- ===== src/CodeFlows/Tree/Roots.antt =====
-- Which flows are roots (application/code_flows.py): those that continue no flow.
use mathlib.Core.List.Memᴰ
use systemlens.Prelude.{◌≡◌, List, Memᴰ, pair_eq}
use systemlens.Prelude.Dict.{Dict}
use systemlens.Text.{Text, text_eq}
use systemlens.CodeFlows.{CodeFlow}

-- Each flow stands under its id.
abbrev Own : Dict Text CodeFlow → Type 0
Own d = (k : Text) (c : CodeFlow) → Memᴰ (k, c) d → c.id ≡ k
