-- ===== src/Redis/Client.antt =====
-- utilities/redis_client/redis_client.cpp. What the Redis library does in one attempt is an argument:
-- it replies or raises one of its exceptions. Sleeping between attempts is counted, in milliseconds.
pub mod Exceptions
pub mod Retries
pub mod Keys
pub mod Validation
use shooting_star.Base.{
  ℕ, zero, suc, ◌+◌, ◌%◌, String, Bool, true, false, List, [], ◌∷◌, Option, none, some,
  if◌then◌else◌, ◌||◌, ◌&&◌, ◌==◌, length, Attempt, returned, thrown, not, ◌++◌,
}
use shooting_star.Base.Int.{ℤ, pos, pos_part, leb_ℤ, ltb_ℤ}
use shooting_star.Base.Text.{is_empty, concat}

pub data RedisErrorCode : Type 0 where
  no_error invalid_argument io_error timeout closed reply_error protocol_error unknown :
      RedisErrorCode

pub record RedisStatus : Type 0 where
  pub ok : Bool
  pub error_code : RedisErrorCode
  pub error_message : String
  pub attempts : ℕ

pub record RedisScoredMember (R : Type 0) : Type 0 where
  pub member : String
  pub score : R

pub record RetryConfig : Type 0 where
  pub max_attempts : ℤ
  pub delay : ℤ

-- The user, the password and keep_alive are left out: the library alone reads them.
pub record Config : Type 0 where
  pub host : String
  pub port : ℤ
  pub db : ℤ
  pub pool_size : ℕ
  pub connect_timeout : ℤ
  pub socket_timeout : ℤ
  pub pool_wait_timeout : ℤ
  pub pool_connection_lifetime : ℤ
  pub pool_connection_idle_time : ℤ
  pub retry : RetryConfig

-- The exceptions of the library, with their messages.
pub data RedisException : Type 0 where
  timeout_raised closed_raised io_raised reply_raised proto_raised other_raised :
      String → RedisException

abbrev pub ok_status : ℕ → RedisStatus
ok_status attempts = record {
  ok = true;
  error_code = no_error;
  error_message = "";
  attempts = attempts;
}

abbrev pub error_status : RedisErrorCode → String → ℕ → RedisStatus
error_status code message attempts = record {
  ok = false;
  error_code = code;
  error_message = message;
  attempts = attempts;
}

abbrev is_retryable : RedisErrorCode → Bool
is_retryable io_error = true
is_retryable timeout = true
is_retryable closed = true
is_retryable _ = false

abbrev pub status_from_exception : RedisException → ℕ → RedisStatus
status_from_exception (timeout_raised what) n = error_status timeout what n
status_from_exception (closed_raised what) n = error_status closed what n
status_from_exception (io_raised what) n = error_status io_error what n
status_from_exception (reply_raised what) n = error_status reply_error what n
status_from_exception (proto_raised what) n = error_status protocol_error what n
status_from_exception (other_raised what) n = error_status unknown what n

-- The `catch` blocks after which the loop goes on.
abbrev pub goes_on : RedisException → Bool
goes_on (timeout_raised what) = true
goes_on (closed_raised what) = true
goes_on (io_raised what) = true
goes_on _ = false

-- ValidateRedisConfig: the message of the exception that it throws, if any.
abbrev check_timeouts : List (String × ℤ) → Option String
check_timeouts [] = none
check_timeouts ((name, value) ∷ rest) =
    if ltb_ℤ value (pos 0)
    then some (concat (name ∷ " must not be negative" ∷ []))
    else check_timeouts rest

pub validate_redis_config : Config → Option String
validate_redis_config config =
    if is_empty config.host
    then some "RedisClient host must not be empty"
    else if leb_ℤ config.port (pos 0) || ltb_ℤ (pos 65535) config.port
    then some "RedisClient port must be between 1 and 65535"
    else if ltb_ℤ config.db (pos 0)
    then some "RedisClient db must not be negative"
    else if config.pool_size == 0
    then some "RedisClient pool_size must be greater than zero"
    else if leb_ℤ config.retry.max_attempts (pos 0)
    then some "RedisClient retry.max_attempts must be greater than zero"
    else check_timeouts (
        ("RedisClient connect_timeout", config.connect_timeout)
        ∷ ("RedisClient socket_timeout", config.socket_timeout)
        ∷ ("RedisClient pool_wait_timeout", config.pool_wait_timeout)
        ∷ ("RedisClient pool_connection_lifetime", config.pool_connection_lifetime)
        ∷ ("RedisClient pool_connection_idle_time", config.pool_connection_idle_time)
        ∷ ("RedisClient retry.delay", config.retry.delay)
        ∷ [])

-- One attempt: the body of the `try` returns a result, or the library raises.
pub data Tried (A : Type 0) : Type 0 where
  concluded : RedisStatus → A → Tried A
  raised : RedisException → Tried A

pub record Result (A : Type 0) : Type 0 where
  pub status : RedisStatus
  pub value : A
  pub slept : ℕ

-- What the library does in one attempt.
pub data Outcome (A : Type 0) : Type 0 where
  replied : A → Outcome A
  failed : RedisException → Outcome A

abbrev pub attempted : {A B : Type 0} → Outcome A → (A → Tried B) → Tried B
attempted (replied a) k = k a
attempted (failed e) k = raised e

-- The sleep after a failed attempt.
abbrev pub pause : RetryConfig → RedisException → ℕ → ℕ
pause retry e attempt =
    if ltb_ℤ (pos attempt) retry.max_attempts
      && is_retryable (status_from_exception e attempt).error_code
      && ltb_ℤ (pos 0) retry.delay
    then pos_part retry.delay
    else 0

-- The status of a result that nothing has been written to.
abbrev pub no_status : RedisStatus
no_status = record { ok = false; error_code = no_error; error_message = ""; attempts = 0 }

module _ {A : Type 0} where
  -- The loop over the attempts, with the rounds that are left, the number of the next attempt, and the
  -- status so far.
  pub attempts_from : RetryConfig → (ℕ → Tried A) → A → ℕ → ℕ → RedisStatus → ℕ → Result A
  attempts_from retry body value zero attempt last slept = record {
    status = last;
    value = value;
    slept = slept;
  }
  attempts_from retry body value (suc left) attempt last slept = elim (body attempt) [
    | concluded status result ↦ record { status = status; value = result; slept = slept }
    | raised e ↦ elim (goes_on e) [
      | true ↦
          attempts_from retry body value left (suc attempt) (status_from_exception e attempt)
            (slept + pause retry e attempt)
      | false ↦ record { status = status_from_exception e attempt; value = value; slept = slept }
    ]
  ]

  unfoldable pub with_retries : RetryConfig → (ℕ → Tried A) → A → Result A
  unfolding attempts_from
  with_retries retry body value =
      attempts_from retry body value (pos_part retry.max_attempts) 1 no_status 0

-- A client: its configuration, and what the library does in each attempt at each command. Replies to
-- ZREVRANGE WITHSCORES are texts, member and score in turn; `parse_double` reads a score.
pub record RedisClient (R : Type 0) : Type 0 where
  pub config : Config
  pub ping_call : ℕ → Outcome (Unit {0})
  pub get_call : String → ℕ → Outcome (Option String)
  pub mget_call : List String → ℕ → Outcome (List (Option String))
  pub zrevrange_call : String → ℤ → ℤ → ℕ → Outcome (List String)
  pub pipeline_call : List String → ℤ → ℤ → ℕ → Outcome (List (List String))
  pub parse_double : String → Option R

abbrev odd_number : String
odd_number = "Redis ZREVRANGE WITHSCORES returned an odd number of values"

abbrev invalid_score : String
invalid_score = "Redis ZREVRANGE WITHSCORES returned an invalid score"

-- `RedisClient(Config)`, for what the library is going to do.
unfoldable pub construct : {R : Type 0} → RedisClient R → Attempt (RedisClient R)
unfolding validate_redis_config
construct client = elim (validate_redis_config client.config) [
  | some message ↦ thrown message
  | none ↦ returned client
]

module _ {R : Type 0} where
  unfoldable pub ping : RedisClient R → Result (Unit {0})
  unfolding with_retries
  ping client =
      with_retries client.config.retry
        (λ attempt. attempted (client.ping_call attempt) (λ u. concluded (ok_status attempt) u)) tt

  unfoldable pub get : RedisClient R → String → Result (Option String)
  unfolding with_retries
  get client key =
      with_retries client.config.retry
        (λ attempt. attempted (client.get_call key attempt) (λ v. concluded (ok_status attempt) v))
        none

  unfoldable pub mget : RedisClient R → List String → Result (List (Option String))
  unfolding with_retries
  mget client [] = record { status = ok_status 0; value = []; slept = 0 }
  mget client (key ∷ keys) =
      with_retries client.config.retry
        (λ attempt.
          attempted (client.mget_call (key ∷ keys) attempt) (λ v. concluded (ok_status attempt) v))
        []

  -- The loop over members and scores: the members so far, and whether every score was valid.
  unfoldable pub read_members :
      (String → Option R) → List String → List (RedisScoredMember R) × Bool
  read_members parse [] = ([], true)
  read_members parse (member ∷ []) = ([], true)
  read_members parse (member ∷ score ∷ rest) =
      let others = read_members parse rest in
      elim (parse score) [
        | none ↦ ([], false)
        | some x ↦ (record { member = member; score = x } ∷ others.0, others.1)
      ]

  abbrev pub read_values :
      (String → Option R) → ℕ → List String → Tried (List (RedisScoredMember R))
  read_values parse attempt raw_values =
      if not (length raw_values % 2 == 0)
      then concluded (error_status protocol_error odd_number attempt) []
      else (let members = read_members parse raw_values in
          if members.1
          then concluded (ok_status attempt) members.0
          else concluded (error_status protocol_error invalid_score attempt) members.0)

  unfoldable pub zrevrange_with_scores :
      RedisClient R → String → ℤ → ℤ → Result (List (RedisScoredMember R))
  unfolding with_retries read_members
  zrevrange_with_scores client key start stop =
      with_retries client.config.retry
        (λ attempt.
          attempted (client.zrevrange_call key start stop attempt)
            (read_values client.parse_double attempt))
        []

  -- The loop over the replies of a pipeline, with the values read so far.
  unfoldable pub read_replies :
      (String → Option R)
      → ℕ
      → List (List String)
      → List (List (RedisScoredMember R))
      → Tried (List (List (RedisScoredMember R)))
  unfolding read_members
  read_replies parse attempt [] values = concluded (ok_status attempt) values
  read_replies parse attempt (raw_values ∷ replies) values =
      let members = read_members parse raw_values in
      let rest = read_replies parse attempt replies (values ++ members.0 ∷ []) in
      if not (length raw_values % 2 == 0)
      then concluded (error_status protocol_error odd_number attempt) values
      else if not members.1
      then concluded (error_status protocol_error invalid_score attempt) values
      else rest

  abbrev pub read_pipeline :
      (String → Option R) → ℕ → ℕ → List (List String) → Tried (List (List (RedisScoredMember R)))
  read_pipeline parse count attempt replies =
      if not (length replies == count)
      then concluded
          (error_status protocol_error "Redis pipeline returned unexpected number of replies"
            attempt)
          []
      else read_replies parse attempt replies []

  -- A failure to read one reply is a failure of the whole pipeline. The code may then keep the lists
  -- read before, also when a later attempt ends in an error, where this result holds none; the status
  -- is the same, and its callers read the lists of a success only.
  unfoldable pub batch_zrevrange_with_scores :
      RedisClient R → List String → ℤ → ℤ → Result (List (List (RedisScoredMember R)))
  unfolding with_retries read_replies
  batch_zrevrange_with_scores client [] start stop = record {
    status = ok_status 0;
    value = [];
    slept = 0;
  }
  batch_zrevrange_with_scores client (key ∷ keys) start stop =
      with_retries client.config.retry
        (λ attempt.
          attempted (client.pipeline_call (key ∷ keys) start stop attempt)
            (read_pipeline client.parse_double (length (key ∷ keys)) attempt))
        []
