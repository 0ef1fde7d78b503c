-- ===== src/Retrieval/Orchestrator.antt =====
-- src/recommendation_engine/retrieval/orchestrator: merging candidates, the rounds over the
-- retrievers' answers, and the Retrieve RPC.
pub mod Merge
pub mod Rounds
pub mod Dispatch
