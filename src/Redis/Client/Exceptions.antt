-- ===== src/Redis/Client/Exceptions.antt =====
-- The exceptions of the Redis library: which of them are worth a further attempt, and the statuses that
-- report them.
use shooting_star.Base.{ℕ, String, true, false, ◌≡◌, ◌⊎◌, ◌↔◌, inl, inr, refl, arith}
use shooting_star.Redis.Client.{
  RedisErrorCode, RedisStatus, RedisException, timeout_raised, closed_raised, io_raised,
  reply_raised, proto_raised, other_raised, timeout, closed, io_error, reply_error, protocol_error,
  unknown, goes_on, status_from_exception,
}

-- A timeout, a closed connection or an I/O error.
abbrev pub IsTransient : RedisException → Type 0
IsTransient e =
    (what : String) × ((e ≡ timeout_raised what) ⊎ (e ≡ closed_raised what) ⊎ (e ≡ io_raised what))

pub goes_on-IsTransient : (e : RedisException) → (goes_on e ≡ true) ↔ IsTransient e
goes_on-IsTransient (timeout_raised w) = (λ _. (w, inl refl), λ _. refl)
goes_on-IsTransient (closed_raised w) = (λ _. (w, inr (inl refl)), λ _. refl)
goes_on-IsTransient (io_raised w) = (λ _. (w, inr (inr refl)), λ _. refl)
goes_on-IsTransient (reply_raised w) = ground arith
goes_on-IsTransient (proto_raised w) = ground arith
goes_on-IsTransient (other_raised w) = ground arith

-- The error code and the message that a status reports for an exception.
abbrev reported : RedisException → RedisErrorCode × String
reported (timeout_raised what) = (timeout, what)
reported (closed_raised what) = (closed, what)
reported (io_raised what) = (io_error, what)
reported (reply_raised what) = (reply_error, what)
reported (proto_raised what) = (protocol_error, what)
reported (other_raised what) = (unknown, what)

-- The status of an attempt that raised an exception.
abbrev pub reports : RedisException → ℕ → RedisStatus
reports e k = record {
  ok = false;
  error_code = (reported e).0;
  error_message = (reported e).1;
  attempts = k;
}

pub status_from_exception-reports :
    (e : RedisException) (k : ℕ) → status_from_exception e k ≡ reports e k
status_from_exception-reports (timeout_raised what) k = refl
status_from_exception-reports (closed_raised what) k = refl
status_from_exception-reports (io_raised what) k = refl
status_from_exception-reports (reply_raised what) k = refl
status_from_exception-reports (proto_raised what) k = refl
status_from_exception-reports (other_raised what) k = refl
