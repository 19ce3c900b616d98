-- ===== src/Limiter.antt =====
-- src/middlewares/socketRateLimit.middleware.ts: the per-user counters of `message:send`, and the
-- limits that it takes from src/config/env.ts. Times are milliseconds, as `Date.now()` gives them.
pub mod Window
pub mod Burst
pub mod Users
use react_websocket_chat.Prelude.{
  ℕ, ◌+◌, String, Bool, true, false, ◌&&◌, List, [], ◌∷◌, Option, none, some, leb, if◌then◌else◌,
  lookup, insert, str_eq,
}

-- The fields of EnvConfig that the limiter reads. Their defaults are 10 and 10000.
pub record RateLimits : Type 0 where
  pub max : ℕ
  pub window_ms : ℕ

pub record RateLimitBucket : Type 0 where
  pub count : ℕ
  pub window_start : ℕ

abbrev pub Buckets : Type 0
Buckets = List (String × RateLimitBucket)

-- `undefined` is `none`. The first test is `!bucket || now - bucket.windowStart >= windowMs`.
unfoldable pub check_message_rate_limit : RateLimits → ℕ → String → Buckets → Bool × Buckets
check_message_rate_limit env now user_id buckets = elim (lookup user_id buckets) [
  | none ↦ (true, insert user_id (record { count = 1; window_start = now }) buckets)
  | some bucket ↦
      if leb (bucket.window_start + env.window_ms) now
      then (true, insert user_id (record { count = 1; window_start = now }) buckets)
      else if leb env.max bucket.count
      then (false, buckets)
      else (true, insert user_id (record bucket { count = bucket.count + 1 }) buckets)
]

-- How many sends of `user_id` a sequence of calls allows; a call is its time and its user.
unfoldable pub admitted : RateLimits → String → List (ℕ × String) → Buckets → ℕ
admitted env user_id [] buckets = 0
admitted env user_id ((now, caller) ∷ calls) buckets =
    let (allowed, buckets') = check_message_rate_limit env now caller buckets in
    (if allowed && str_eq caller user_id then 1 else 0) + admitted env user_id calls buckets'

-- The map after a sequence of calls.
unfoldable pub buckets_after : RateLimits → List (ℕ × String) → Buckets → Buckets
buckets_after env [] buckets = buckets
buckets_after env ((now, caller) ∷ calls) buckets =
    buckets_after env calls (check_message_rate_limit env now caller buckets).1
