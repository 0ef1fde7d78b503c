-- ===== src/Tests/Similarities.antt =====
-- Runs of the Redis client and of the similarity stores, with whole numbers as scores.
use Prim.Native.String.{◌++◌ as ◌+++◌}
use shooting_star.Base.{
  ℕ, String, List, [], ◌∷◌, Option, none, some, map, All, ◌≡◌, ◌↔◌, refl, arith, returned,
  if◌then◌else◌, ◌==◌, Bool-cases, inl, inr,
}
use shooting_star.Base.Int.{ℤ, pos, pos_part}
use shooting_star.Base.Text.{str_eq, to_string}
use shooting_star.Base.Decimal.{parse_uint64}
use shooting_star.Retrieval.Retrievers.Scores.{Scored}
use shooting_star.Redis.Client.{
  Config, RetryConfig, RedisClient, Outcome, replied, failed, timeout_raised, Tried, concluded,
  ok_status, construct, with_retries, attempted,
}
use shooting_star.Redis.Client.Retries.{Ended, with_retries-Ended}
use shooting_star.Redis.Client.Keys.{build_redis_key, build_redis_key_inj}
use shooting_star.Redis.Client.Validation.{IsValid, construct-IsValid}
use shooting_star.Redis.Stores.{find_neighbors_by_item_ids, redis_keys, last_rank}
use shooting_star.Redis.Stores.Listings.{IsStored, listing}
use shooting_star.Redis.Stores.Lookups.{RepliesWith}
use shooting_star.Redis.Stores.Batches.{valid, find_neighbors_by_item_ids-found}

abbrev retry : RetryConfig
retry = record { max_attempts = pos 3; delay = pos 10 }

abbrev config : Config
config = record {
  host = "localhost";
  port = pos 6379;
  db = pos 0;
  pool_size = 4;
  connect_timeout = pos 100;
  socket_timeout = pos 100;
  pool_wait_timeout = pos 50;
  pool_connection_lifetime = pos 0;
  pool_connection_idle_time = pos 0;
  retry = retry;
}

-- Item 1 has two neighbours.
abbrev two : List (Scored ℤ)
two = record { id = 2; score = pos 900 } ∷ record { id = 3; score = pos 500 } ∷ []

abbrev neighbors : ℕ → List (Scored ℤ)
neighbors id = if id == 1 then two else []

abbrev read : String → Option ℤ
read text = elim (parse_uint64 text) [ none ↦ none | some n ↦ some (pos n) ]

abbrev print : ℤ → String
print score = to_string (pos_part score)

abbrev reply : String → List String
reply key = if str_eq key "item_cf:1" then "2" ∷ "900" ∷ "3" ∷ "500" ∷ [] else []

-- The library times out once, then replies.
abbrev slow : {A : Type 0} → A → ℕ → Outcome A
slow a attempt = if attempt == 1 then failed (timeout_raised "slow") else replied a

abbrev client : RedisClient ℤ
client = record {
  config = config;
  ping_call = slow tt;
  get_call = λ key. slow none;
  mget_call = λ keys. slow [];
  zrevrange_call = λ key start stop. slow (reply key);
  pipeline_call = λ keys start stop. slow (map reply keys);
  parse_double = read;
}

construct-IsValid_example : (construct client ≡ returned client) ↔ IsValid config
construct-IsValid_example = construct-IsValid client

build_redis_key_inj_example :
    (build_redis_key ("item_cf" +++ ":") 1 ≡ build_redis_key "item_cf" 2) ↔ (◌≡◌ {A = ℕ} 1 2)
build_redis_key_inj_example = build_redis_key_inj "item_cf" 1 2 (omega arith) (omega arith)

abbrev body : ℕ → Tried ℕ
body attempt = attempted (slow 5 attempt) (λ n. concluded (ok_status attempt) n)

with_retries-Ended_example : Ended retry body 0 1 3 0 (with_retries retry body 0)
with_retries-Ended_example = with_retries-Ended retry body 0 refl

-- The second attempt concludes, after one sleep.
body-run : with_retries retry body 0 ≡ record { status = ok_status 2; value = 5; slept = 10 }
unfolding with_retries
body-run = refl

neighbors-IsStored : (id : ℕ) → All (IsStored read print) (neighbors id)
unfolding parse_uint64 to_string
neighbors-IsStored id = elim (Bool-cases (id == 1)) [
  | inl e ↦ rw e ((omega arith, omega arith, refl), ((omega arith, omega arith, refl), tt))
  | inr e ↦ rw e tt
]

slow-replies : {A : Type 0} (a : A) → RepliesWith (pos 3) (slow a) a
slow-replies a = (
  2,
  omega arith,
  omega arith,
  λ i low high. (timeout_raised "slow", ground (arith, low, high), refl),
  refl,
)

one_replies :
    RepliesWith
      (pos 3)
      (client.zrevrange_call (build_redis_key "item_cf" 1) (pos 0) (last_rank (pos 5)))
      (listing read print (neighbors 1))
unfolding build_redis_key to_string
one_replies = slow-replies (listing read print two)

batch_replies :
    RepliesWith
      (pos 3)
      (client.pipeline_call (redis_keys "item_cf" (0 ∷ 1 ∷ 7 ∷ [])) (pos 0) (last_rank (pos 5)))
      (map (listing read print) (map neighbors (valid (0 ∷ 1 ∷ 7 ∷ []))))
unfolding redis_keys to_string
batch_replies = slow-replies (listing read print two ∷ [] ∷ [])

find_neighbors_by_item_ids-found_example :
    find_neighbors_by_item_ids
      (record { client = client; key_prefix = "item_cf" })
      (0 ∷ 1 ∷ 7 ∷ [])
      (pos 5)
    ≡ returned ([] ∷ two ∷ [] ∷ [])
find_neighbors_by_item_ids-found_example =
    find_neighbors_by_item_ids-found client "item_cf" (pos 5) print neighbors (0 ∷ 1 ∷ 7 ∷ []) refl
      neighbors-IsStored batch_replies
