-- ===== src/Redis/Client/Validation.antt =====
-- Which configurations the constructor of RedisClient accepts.
use shooting_star.Base.{◌≤◌, none, ◌≡◌, ◌≢◌, ◌↔◌, arith, returned, Option-cases, inl, inr}
use shooting_star.Base.Int.{pos, ◌≤ℤ◌}
use shooting_star.Base.Text.{str_eq_iff}
use shooting_star.Redis.Client.{Config, RedisClient, validate_redis_config, construct}

-- A host, a port of the TCP range, a pool, at least one attempt, and no negative duration.
abbrev pub IsValid : Config → Type 0
IsValid c =
    (c.host ≢ "")
    × pos 1 ≤ℤ c.port
    × c.port ≤ℤ pos 65535
    × pos 0 ≤ℤ c.db
    × 1 ≤ c.pool_size
    × pos 1 ≤ℤ c.retry.max_attempts
    × pos 0 ≤ℤ c.connect_timeout
    × pos 0 ≤ℤ c.socket_timeout
    × pos 0 ≤ℤ c.pool_wait_timeout
    × pos 0 ≤ℤ c.pool_connection_lifetime
    × pos 0 ≤ℤ c.pool_connection_idle_time
    × pos 0 ≤ℤ c.retry.delay

validate_redis_config-IsValid : (c : Config) → (validate_redis_config c ≡ none) ↔ IsValid c
unfolding validate_redis_config
validate_redis_config-IsValid c = ground (arith, str_eq_iff c.host "")

-- The constructor accepts a configuration exactly when it has a host, a port from 1 to 65535, a
-- database that is not negative, a pool that is not empty, at least one attempt, and no negative
-- duration; else it throws.
pub construct-IsValid :
    {R : Type 0} (client : RedisClient R)
    → (construct client ≡ returned client) ↔ IsValid client.config
unfolding construct
construct-IsValid client = elim (Option-cases (validate_redis_config client.config)) [
  | inl e ↦ ground (arith, e, validate_redis_config-IsValid client.config)
  | inr (m, e) ↦ ground (arith, e, validate_redis_config-IsValid client.config)
]
