-- ===== src/FlowSet.antt =====
-- indexing/code_flows.py: the set of flows that an index keeps: its deduplication, the merge of the
-- two passes, the steps of facts, and the reconciliation with the topology.
pub mod Anchors
pub mod Combine
pub mod Dedup
mod Examples
pub mod Reconcile
pub mod SameMethod
pub mod Steps
