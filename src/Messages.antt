-- ===== src/Messages.antt =====
-- The messages of protos/recommendation_engine/*.proto that the services exchange, and grpc::Status.
-- Enumerations hold the values that the .proto files name.
pub mod Status
pub mod Profiles
pub mod Candidates
pub mod Services
pub mod Ranking
