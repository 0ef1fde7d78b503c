-- ===== src/Redis/Stores.antt =====
-- redis_item_similarity_store.cpp and redis_user_similarity_store.cpp: neighbours of an item or a user, the
-- best first, from the sorted sets of Redis. A thrown exception carries the source's message.
pub mod Listings
pub mod Lookups
pub mod Batches
use shooting_star.Base.{
  ℕ, suc, ◌-◌, String, Bool, true, false, List, [], ◌∷◌, Option, none, some, if◌then◌else◌, ◌||◌,
  ◌==◌, map, length, update, Attempt, returned, thrown, not,
}
use shooting_star.Base.Int.{ℤ, pos, pos_part, leb_ℤ}
use shooting_star.Base.Text.{is_empty, concat, to_string}
use shooting_star.Base.Decimal.{parse_uint64}
use shooting_star.Retrieval.Retrievers.Scores.{Scored}
use shooting_star.Redis.Client.{
  RedisClient, RedisScoredMember, zrevrange_with_scores, batch_zrevrange_with_scores,
}
use shooting_star.Redis.Client.Keys.{build_redis_key}

-- ParseItemId; ParseUserId is the same.
pub parse_item_id : String → Option ℕ
parse_item_id value = elim (parse_uint64 value) [
  | none ↦ none
  | some item_id ↦ if item_id == 0 then none else some item_id
]

pub record RedisItemSimilarityStore (R : Type 0) : Type 0 where
  pub client : RedisClient R
  pub key_prefix : String

pub record RedisUserSimilarityStore (R : Type 0) : Type 0 where
  pub client : RedisClient R
  pub key_prefix : String

abbrev invalid_neighbor : String → String → String → String
invalid_neighbor kind key member = concat (
    "Redis " ∷ kind ∷ " similarity key " ∷ key ∷ " contains invalid neighbor " ∷ kind ∷ " id: "
    ∷ member ∷ [])

-- `max_neighbor_count - 1`, for a positive count.
abbrev pub last_rank : ℤ → ℤ
last_rank max_neighbor_count = pos (pos_part max_neighbor_count - 1)

module _ {R : Type 0} where
  unfoldable pub construct_item_store :
      RedisClient R → String → Attempt (RedisItemSimilarityStore R)
  construct_item_store client key_prefix =
      if is_empty key_prefix
      then thrown "RedisItemSimilarityStore key_prefix must not be empty"
      else returned record { client = client; key_prefix = key_prefix }

  unfoldable pub construct_user_store :
      RedisClient R → String → Attempt (RedisUserSimilarityStore R)
  construct_user_store client key_prefix =
      if is_empty key_prefix
      then thrown "RedisUserSimilarityStore key_prefix must not be empty"
      else returned record { client = client; key_prefix = key_prefix }

  abbrev in_front : Scored R → Attempt (List (Scored R)) → Attempt (List (Scored R))
  in_front neighbor (thrown message) = thrown message
  in_front neighbor (returned neighbors) = returned (neighbor ∷ neighbors)

  -- The loop over the members of one reply.
  pub read_neighbors : String → String → List (RedisScoredMember R) → Attempt (List (Scored R))
  unfolding parse_item_id
  read_neighbors kind key [] = returned []
  read_neighbors kind key (value ∷ values) = elim (parse_item_id value.member) [
    | none ↦ thrown (invalid_neighbor kind key value.member)
    | some id ↦ in_front (record { id = id; score = value.score }) (read_neighbors kind key values)
  ]

  -- The one look-up, which the two stores do alike.
  pub find_neighbors : String → RedisClient R → String → ℕ → ℤ → Attempt (List (Scored R))
  unfolding read_neighbors zrevrange_with_scores build_redis_key
  find_neighbors kind client key_prefix id max_neighbor_count =
      if id == 0 || leb_ℤ max_neighbor_count (pos 0)
      then returned []
      else (let key = build_redis_key key_prefix id in
          let result = zrevrange_with_scores client key (pos 0) (last_rank max_neighbor_count) in
          if not result.status.ok
          then thrown (
              concat (
                "Failed to fetch "
                ∷ kind
                ∷ " similarity from Redis key "
                ∷ key
                ∷ " after "
                ∷ to_string result.status.attempts
                ∷ " attempt(s): "
                ∷ result.status.error_message
                ∷ []))
          else read_neighbors kind key result.value)

  unfoldable pub find_neighbors_by_item_id :
      RedisItemSimilarityStore R → ℕ → ℤ → Attempt (List (Scored R))
  unfolding find_neighbors
  find_neighbors_by_item_id store = find_neighbors "item" store.client store.key_prefix

  unfoldable pub find_neighbors_by_user_id :
      RedisUserSimilarityStore R → ℕ → ℤ → Attempt (List (Scored R))
  unfolding find_neighbors
  find_neighbors_by_user_id store = find_neighbors "user" store.client store.key_prefix

  abbrev pub no_neighbors : List ℕ → List (List (Scored R))
  no_neighbors item_ids = map (λ (_ : ℕ). []) item_ids

  -- The loop over the replies of the batch.
  pub assign_neighbors :
      List ℕ
      → List String
      → List (List (RedisScoredMember R))
      → List (List (Scored R))
      → Attempt (List (List (Scored R)))
  unfolding read_neighbors
  assign_neighbors (index ∷ indexes) (key ∷ keys) (values ∷ replies) neighbors =
      elim (read_neighbors "item" key values) [
        | thrown message ↦ thrown message
        | returned found ↦
            assign_neighbors indexes keys replies (update neighbors index (λ _. found))
      ]
  assign_neighbors _ _ _ neighbors = returned neighbors

-- The positions of the ids that are not zero, counted from `i`, and their keys.
pub valid_item_indexes : ℕ → List ℕ → List ℕ
valid_item_indexes i [] = []
valid_item_indexes i (item_id ∷ rest) =
    let others = valid_item_indexes (suc i) rest in if item_id == 0 then others else i ∷ others

unfoldable pub redis_keys : String → List ℕ → List String
unfolding build_redis_key
redis_keys key_prefix [] = []
redis_keys key_prefix (item_id ∷ rest) =
    let others = redis_keys key_prefix rest in
    if item_id == 0 then others else build_redis_key key_prefix item_id ∷ others

abbrev pub is_nil : {A : Type 0} → List A → Bool
is_nil [] = true
is_nil (x ∷ xs) = false

module _ {R : Type 0} where
  pub find_neighbors_by_item_ids :
      RedisItemSimilarityStore R → List ℕ → ℤ → Attempt (List (List (Scored R)))
  unfolding batch_zrevrange_with_scores redis_keys valid_item_indexes assign_neighbors
  find_neighbors_by_item_ids store item_ids max_neighbor_count =
      let keys = redis_keys store.key_prefix item_ids in
      let indexes = valid_item_indexes 0 item_ids in
      let result =
        batch_zrevrange_with_scores store.client keys (pos 0) (last_rank max_neighbor_count) in
      if is_nil item_ids || leb_ℤ max_neighbor_count (pos 0) || is_nil keys
      then returned (no_neighbors item_ids)
      else if not result.status.ok
      then thrown (
          concat (
            "Failed to fetch item similarity from Redis in batch after "
            ∷ to_string result.status.attempts
            ∷ " attempt(s): "
            ∷ result.status.error_message
            ∷ []))
      else if not (length result.value == length indexes)
      then thrown "Redis item similarity batch lookup returned mismatched result size"
      else assign_neighbors indexes keys result.value (no_neighbors item_ids)
