-- ===== src/Cache.antt =====
-- The in-memory caches: utilities/lru_cache/lru_cache.h, and the two stores that put a cache in front
-- of another store (profile/caching_profile_store.cpp and ranking/caching_item_index_store.cpp).
pub mod Keyed
pub mod Lru
pub mod Stores
