-- ===== src/FlowSet/SameMethod/Marks.antt =====
-- mark_after_commit_publications (indexing/code_flows.py), for a given repository root.
-- `after_commit_lines` are the lines of a file's transactional listeners, as the Java parser finds
-- them.
use systemlens.Prelude.{
  ℕ, Bool, ◌&&◌, none, some, List, if◌then◌else◌, ◌==◌, any, leb, map, option_eq,
}
use systemlens.Text.{Text, text_eq, codes}
use systemlens.CodeFlows.{CodeFlow, CodeFlowStep}

module _ (after_commit_lines : Text → List (ℕ × ℕ)) where
  unfoldable pub is_after_commit : CodeFlowStep → Bool
  is_after_commit s =
      s.kind == codes "message_publish"
      && s.phase == none
      && any (λ range. leb range.0 s.start_line && leb s.start_line range.1)
          (after_commit_lines s.path)

  unfoldable pub marked : CodeFlowStep → CodeFlowStep
  unfolding is_after_commit
  marked s = record s { phase = if is_after_commit s then some (codes "after_commit") else s.phase }

  -- An unchanged flow is its own copy.
  unfoldable pub mark_flow : CodeFlow → CodeFlow
  unfolding marked
  mark_flow flow = record flow { steps = map marked flow.steps }

  unfoldable pub mark_after_commit_publications : List CodeFlow → List CodeFlow
  unfolding mark_flow
  mark_after_commit_publications flows = map mark_flow flows
