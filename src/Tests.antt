-- ===== src/Tests.antt =====
-- Runs of the model on concrete inputs, with numbers in thousandths for `double`.
pub mod Data
mod Merging
mod Replying
mod Retrieving
mod Ranking
mod Serving
mod Caching
mod Profiles
mod Similarities
mod Leasing
mod Files
mod Encoding
