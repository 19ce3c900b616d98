-- ===== src/Limiter/Users.antt =====
-- The limiter keeps the users apart: what it answers one user is what a limiter of that user alone
-- would answer.
use react_websocket_chat.Prelude.{
  ℕ, ◌+◌, String, ◌≡◌, refl, Bool, true, false, List, [], ◌∷◌, Option, none, some, arith, leb,
  if◌then◌else◌, lookup, lookup-insert, str_eq, str_eq_iff,
}
use react_websocket_chat.Limiter.{
  RateLimits, RateLimitBucket, Buckets, check_message_rate_limit, admitted,
}

-- The limiter of one user: an optional bucket in place of the map.
unfoldable pub check_alone : RateLimits → ℕ → Option RateLimitBucket → Bool × Option RateLimitBucket
check_alone env now none = (true, some (record { count = 1; window_start = now }))
check_alone env now (some bucket) =
    if leb (bucket.window_start + env.window_ms) now
    then (true, some (record { count = 1; window_start = now }))
    else if leb env.max bucket.count
    then (false, some bucket)
    else (true, some (record bucket { count = bucket.count + 1 }))

unfoldable pub admitted_alone : RateLimits → List ℕ → Option RateLimitBucket → ℕ
admitted_alone env [] bucket = 0
admitted_alone env (now ∷ times) bucket =
    let (allowed, bucket') = check_alone env now bucket in
    (if allowed then 1 else 0) + admitted_alone env times bucket'

-- The times of one user's calls.
abbrev pub times_of : String → List (ℕ × String) → List ℕ
times_of user_id [] = []
times_of user_id ((now, caller) ∷ calls) =
    if str_eq caller user_id then now ∷ times_of user_id calls else times_of user_id calls

abbrev bumped : Option RateLimitBucket → RateLimitBucket
bumped none = record { count = 0; window_start = 0 }
bumped (some bucket) = record bucket { count = bucket.count + 1 }

module _ (env : RateLimits) (now : ℕ) (caller : String) (buckets : Buckets) where
  pub allowed-check :
      (check_message_rate_limit env now caller buckets).0
      ≡ (check_alone env now (lookup caller buckets)).0
  unfolding check_message_rate_limit check_alone
  allowed-check = ground arith

  -- The caller's bucket is that of its own limiter, and no other user's bucket changes.
  pub lookup-check :
      (user_id : String)
      → lookup user_id (check_message_rate_limit env now caller buckets).1 ≡ (
          if str_eq caller user_id
          then (check_alone env now (lookup caller buckets)).1
          else lookup user_id buckets)
  unfolding check_message_rate_limit check_alone
  lookup-check user_id = ground (
    arith,
    lookup-insert caller user_id (record { count = 1; window_start = now }) buckets,
    lookup-insert caller user_id (bumped (lookup caller buckets)) buckets,
    str_eq_iff caller user_id,
  )

-- Over any sequence of calls by any users, a user is allowed as many sends as a limiter would allow
-- that saw this user's calls only.
pub admitted-eq-admitted_alone :
    (env : RateLimits) (user_id : String) (calls : List (ℕ × String)) (buckets : Buckets)
    → admitted env user_id calls buckets
      ≡ admitted_alone env (times_of user_id calls) (lookup user_id buckets)
unfolding admitted admitted_alone
admitted-eq-admitted_alone env user_id [] buckets = refl
admitted-eq-admitted_alone env user_id ((now, caller) ∷ calls) buckets =
    let buckets' : Buckets = (check_message_rate_limit env now caller buckets).1 in
    ground (
      arith,
      allowed-check env now caller buckets,
      lookup-check env now caller buckets user_id,
      str_eq_iff caller user_id,
      admitted-eq-admitted_alone env user_id calls buckets',
    )
