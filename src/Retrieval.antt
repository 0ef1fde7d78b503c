-- ===== src/Retrieval.antt =====
-- The retrieval services: the orchestrator, and the retrievers that it calls.
pub mod Orchestrator
pub mod Retrievers
