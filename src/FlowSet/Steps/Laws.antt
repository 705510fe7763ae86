-- ===== src/FlowSet/Steps/Laws.antt =====
-- What the steps of facts keep of them (indexing/code_flows.py).
use systemlens.Prelude.{
  ℕ, suc, ◌≡◌, ◌≢◌, refl, sym, ap, subst, ◌↔◌, Bool, true, false, List, [], ◌∷◌, ◌++◌, pair_eq,
}
use systemlens.Text.{Text, text_eq, text_beq, text_beq_iff}
use systemlens.Graph.Edges.{GraphEdge}
use systemlens.DataOperations.{DataAction, DataOperation, action_facets, is_unknown}
use systemlens.CodeFlows.{CodeFlow, CodeFlowStep}
use systemlens.CodeFlows.Internal.{EndpointsById}
use systemlens.FlowSet.Reconcile.{
  id_onto, endpoint_ids, resolve, status_of, flow_status, reconciled,
}
use systemlens.FlowSet.Steps.{
  operation_step, operation_kind, kind_for, data_read, data_write, data_access,
}

-- The steps of operations, numbered from a position on.
abbrev pub operation_steps : List DataOperation → ℕ → Text → List CodeFlowStep
operation_steps [] order trigger_kind = []
operation_steps (o ∷ os) order trigger_kind =
    operation_step o order trigger_kind ∷ operation_steps os (suc order) trigger_kind

endpoint_ids-operations :
    (steps : List CodeFlowStep) (operations : List DataOperation) (order : ℕ) (trigger_kind : Text)
    → endpoint_ids (steps ++ operation_steps operations order trigger_kind) ≡ endpoint_ids steps
unfolding endpoint_ids operation_step
endpoint_ids-operations [] [] order trigger_kind = refl
endpoint_ids-operations [] (o ∷ os) order trigger_kind =
    endpoint_ids-operations [] os (suc order) trigger_kind
endpoint_ids-operations (s ∷ steps) operations order trigger_kind =
    ap (id_onto s.endpoint_id) (endpoint_ids-operations steps operations order trigger_kind)

-- Data steps have no part in the reconciliation: a flow with the steps of any operations behind
-- its own has the status of the flow without them.
pub status-operations :
    (d : EndpointsById) (edges : List GraphEdge) (flow : CodeFlow) (operations : List DataOperation)
    (order : ℕ) (trigger_kind : Text)
    → (reconciled d edges (record flow {
      steps = flow.steps ++ operation_steps operations order trigger_kind;
    })).reconciliation
      ≡ (reconciled d edges flow).reconciliation
unfolding reconciled flow_status
status-operations d edges flow operations order trigger_kind =
    ap (λ ids. status_of flow.in_module edges (resolve d ids))
      (endpoint_ids-operations flow.steps operations order trigger_kind)

kinds_apart : (data_write ≢ data_read) × ((data_write ≢ data_access) × (data_read ≢ data_access))
unfolding text_beq
kinds_apart = (
  λ q. cc ((text_beq_iff data_write data_read).1 q),
  (
    λ q. cc ((text_beq_iff data_write data_access).1 q),
    λ q. cc ((text_beq_iff data_read data_access).1 q),
  ),
)

abbrev Told : DataAction → Bool → Bool → Text → Type 0
Told a r w kind =
    ((kind ≡ data_write) ↔ (w ≡ true))
    × (((kind ≡ data_read) ↔ ((r ≡ true) × (w ≡ false)))
        × ((kind ≡ data_access) ↔ (a ≡ DataAction.unknown)))

Told-write :
    (a : DataAction) (r w : Bool)
    → is_unknown a ≡ false
    → a ≢ DataAction.unknown
    → w ≡ true
    → Told a r w (kind_for a w)
unfolding kind_for
Told-write a r w u known q = subst (Told a r w) (sym (rw (u, q) refl)) (
  (λ _. q, λ _. refl),
  (
    (λ e. absurd (kinds_apart.0 e), λ (_, f). cc),
    (λ e. absurd (kinds_apart.1.0 e), λ e. absurd (known e)),
  ),
)

Told-read :
    (a : DataAction) (r w : Bool)
    → is_unknown a ≡ false
    → a ≢ DataAction.unknown
    → r ≡ true
    → w ≡ false
    → Told a r w (kind_for a w)
unfolding kind_for
Told-read a r w u known p q = subst (Told a r w) (sym (rw (u, q) refl)) (
  (λ e. absurd (kinds_apart.0 (sym e)), λ e. cc),
  ((λ _. (p, q), λ _. refl), (λ e. absurd (kinds_apart.1.1 e), λ e. absurd (known e))),
)

Told-unknown :
    (r w : Bool)
    → r ≡ false
    → w ≡ false
    → Told DataAction.unknown r w (kind_for DataAction.unknown w)
unfolding kind_for is_unknown
Told-unknown r w p q = (
  (λ e. absurd (kinds_apart.1.0 (sym e)), λ e. cc),
  ((λ e. absurd (kinds_apart.1.1 (sym e)), λ (e, _). cc), (λ _. refl, λ _. refl)),
)

told : (a : DataAction) (r w : Bool) → (r, w) ≡ action_facets a → Told a r w (kind_for a w)
unfolding action_facets is_unknown
told a r w h = go a (ap (λ (p : Bool × Bool). p.0) h) (ap (λ (p : Bool × Bool). p.1) h)
  where
    go :
        (a : DataAction)
        → r ≡ (action_facets a).0
        → w ≡ (action_facets a).1
        → Told a r w (kind_for a w)
    go DataAction.read p q = Told-read DataAction.read r w refl (λ e. cc) p q
    go DataAction.insert p q = Told-write DataAction.insert r w refl (λ e. cc) q
    go DataAction.update p q = Told-write DataAction.update r w refl (λ e. cc) q
    go DataAction.delete p q = Told-write DataAction.delete r w refl (λ e. cc) q
    go DataAction.create_or_update p q = Told-write DataAction.create_or_update r w refl (λ e. cc) q
    go DataAction.read_update p q = Told-write DataAction.read_update r w refl (λ e. cc) q
    go DataAction.unknown p q = Told-unknown r w p q

-- The kind of a coherent operation's step tells what it does: it is data_access exactly if the
-- action is unknown, data_write exactly if the action writes, and data_read exactly if it reads
-- only.
pub kind_lem :
    (o : DataOperation) (order : ℕ) (trigger_kind : Text)
    → (o.reads, o.writes) ≡ action_facets o.action
    → (((operation_step o order trigger_kind).kind ≡ data_write) ↔ (o.writes ≡ true))
      × ((((operation_step o order trigger_kind).kind ≡ data_read)
            ↔ ((o.reads ≡ true) × (o.writes ≡ false)))
          × (((operation_step o order trigger_kind).kind ≡ data_access)
              ↔ (o.action ≡ DataAction.unknown)))
unfolding operation_step operation_kind
kind_lem o order trigger_kind h = told o.action o.reads o.writes h
