-- ===== src/Redis.antt =====
-- Redis as the recommender uses it: utilities/redis_client/redis_client.cpp over a Redis library, and the
-- similarity stores on top, redis_item_similarity_store.cpp and redis_user_similarity_store.cpp.
pub mod Client
pub mod Stores
