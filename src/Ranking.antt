-- ===== src/Ranking.antt =====
-- src/recommendation_engine/ranking: the heuristic ranker and the ranking service.
pub mod Weights
pub mod Scoring
pub mod Heuristic
pub mod Service
