-- ===== src/Cache/Stores.antt =====
-- profile/caching_profile_store.cpp and ranking/caching_item_index_store.cpp: a store behind a cache.
-- A store may answer differently at different times, or throw; what the cache reads from the clock
-- comes with each request. As in LruCache, `none` is undefined behaviour.
pub mod Freshness
pub mod Histories
pub mod Batch
use shooting_star.Base.{ℕ, Option, none, some, List, [], ◌∷◌, Attempt, returned, thrown}
use shooting_star.Base.Int.{ℤ}
use shooting_star.Messages.Profiles.{Profile}
use shooting_star.Ranking.Scoring.{ItemIndexEntry}
use shooting_star.Cache.Keyed.{Key, nat_key, int_key}
use shooting_star.Cache.Lru.{LruCache, get, put}
use shooting_star.Cache.Lru as Lru

-- A request, with the times at which the cache is asked, the store is asked, and its answer cached.
pub record Request (K : Type 0) : Type 0 where
  pub key : K
  pub looked_up_at : ℕ
  pub asked_at : ℕ
  pub cached_at : ℕ

-- `inner` is what the store behind the cache answers at a time.
pub record CachingStore (K V : Type 0) : Type 0 where
  pub inner : ℕ → K → Attempt (Option V)
  pub cache : LruCache K V

module _ {K V : Type 0} ⦃q : Key K⦄ where
  abbrev keep : Request K → V → CachingStore K V → Option (Attempt (Option V) × CachingStore K V)
  keep r value s = elim (put r.cached_at r.key value s.cache) [
    | none ↦ none
    | some after ↦ some (returned (some value), record s { cache = after })
  ]

  abbrev fetch : Request K → CachingStore K V → Option (Attempt (Option V) × CachingStore K V)
  fetch r s = elim (s.inner r.asked_at r.key) [
    | thrown message ↦ some (thrown message, s)
    | returned none ↦ some (returned none, s)
    | returned (some value) ↦ keep r value s
  ]

  unfoldable pub read_through :
      Request K → CachingStore K V → Option (Attempt (Option V) × CachingStore K V)
  read_through r s = elim (get r.looked_up_at r.key s.cache) [
    | none ↦ none
    | some (some value, after) ↦ some (returned (some value), record s { cache = after })
    | some (none, after) ↦ fetch r (record s { cache = after })
  ]

  -- Requests one after the other.
  unfoldable pub serve :
      List (Request K) → CachingStore K V → Option (List (Attempt (Option V)) × CachingStore K V)
  serve [] s = some ([], s)
  serve (r ∷ rest) s = elim (read_through r s) [
    | none ↦ none
    | some x ↦ elim (serve rest x.1) [ none ↦ none | some y ↦ some (x.0 ∷ y.0, y.1) ]
  ]

-- The constructors: the store must be there.
abbrev construct_profile_store :
    {R : Type 0}
    → Option (ℕ → ℤ → Attempt (Option (Profile R)))
    → ℕ
    → ℤ
    → Attempt (CachingStore ℤ (Profile R))
construct_profile_store none capacity ttl =
    thrown "CachingProfileStore profile_store must not be null"
construct_profile_store (some inner) capacity ttl =
    returned record { inner = inner; cache = Lru.construct capacity ttl }

abbrev construct_item_index_store :
    {R : Type 0}
    → Option (ℕ → ℕ → Attempt (Option (ItemIndexEntry R)))
    → ℕ
    → ℤ
    → Attempt (CachingStore ℕ (ItemIndexEntry R))
construct_item_index_store none capacity ttl =
    thrown "CachingItemIndexStore item_index_store must not be null"
construct_item_index_store (some inner) capacity ttl =
    returned record { inner = inner; cache = Lru.construct capacity ttl }

unfoldable pub find_by_user_id :
    {R : Type 0}
    → Request ℤ
    → CachingStore ℤ (Profile R)
    → Option (Attempt (Option (Profile R)) × CachingStore ℤ (Profile R))
unfolding read_through
find_by_user_id r s = read_through r s

pub find_by_item_id :
    {R : Type 0}
    → Request ℕ
    → CachingStore ℕ (ItemIndexEntry R)
    → Option (Attempt (Option (ItemIndexEntry R)) × CachingStore ℕ (ItemIndexEntry R))
unfolding read_through
find_by_item_id r s = read_through r s

-- ItemIndexStore::FindByItemIds, which no store with a cache overrides: the look-ups in order; the
-- first that throws ends it.
abbrev pub found_before :
    {V : Type 0} → Option V → Attempt (List (Option V)) → Attempt (List (Option V))
found_before entry (thrown message) = thrown message
found_before entry (returned rest) = returned (entry ∷ rest)

abbrev pub find_each : {V : Type 0} → (ℕ → Attempt (Option V)) → List ℕ → Attempt (List (Option V))
find_each find [] = returned []
find_each find (item_id ∷ rest) = elim (find item_id) [
  | thrown message ↦ thrown message
  | returned entry ↦ found_before entry (find_each find rest)
]

-- The same where each look-up goes through the cache.
pub find_by_item_ids :
    {R : Type 0}
    → List (Request ℕ)
    → CachingStore ℕ (ItemIndexEntry R)
    → Option (Attempt (List (Option (ItemIndexEntry R))) × CachingStore ℕ (ItemIndexEntry R))
find_by_item_ids [] s = some (returned [], s)
find_by_item_ids (r ∷ rest) s = elim (find_by_item_id r s) [
  | none ↦ none
  | some (thrown message, after) ↦ some (thrown message, after)
  | some (returned entry, after) ↦ elim (find_by_item_ids rest after) [
    | none ↦ none
    | some (entries, last) ↦ some (found_before entry entries, last)
  ]
]
