-- ===== src/Retrieval/Retrievers.antt =====
-- src/recommendation_engine/retrieval/retrievers: what the retrievers share (the request handling
-- of the base class, the scoring of candidates), and the item-CF and user-CF retrievers.
pub mod Scores
pub mod Base
pub mod ItemCf
pub mod UserCf
