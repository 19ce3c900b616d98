-- ===== src/Limiter/Window.antt =====
-- How many sends the limiter lets through, for one user's calls.
use Prim.Native.Nat.{min}
use react_websocket_chat.Prelude.{
  str_eq_iff, ℕ, ◌+◌, ◌*◌, ◌≤◌, ◌<◌, String, ◌≡◌, List, [], ◌∷◌, Option, none, some, arith, length,
  lookup, str_eq_refl,
}
use react_websocket_chat.Limiter.{
  RateLimits, RateLimitBucket, Buckets, check_message_rate_limit, admitted, buckets_after,
}
use react_websocket_chat.Limiter.Users.{
  check_alone, admitted_alone, times_of, admitted-eq-admitted_alone, lookup-check,
}

-- Every time lies in the interval [from, from + width).
abbrev pub Within : ℕ → ℕ → List ℕ → Type 0
Within from width [] = Unit
Within from width (now ∷ times) = (from ≤ now) × (now < from + width) × Within from width times

-- A bucket's count does not pass the maximum.
abbrev pub CountFits : RateLimits → Option RateLimitBucket → Type 0
CountFits env none = Unit
CountFits env (some bucket) = bucket.count ≤ env.max

module _ (env : RateLimits) (from : ℕ) (max_pos : 1 ≤ env.max) where
  -- A bucket opened in the interval is not reset before its end.
  admitted_open :
      (times : List ℕ) (bucket : RateLimitBucket)
      → Within from env.window_ms times
      → from ≤ bucket.window_start
      → bucket.count ≤ env.max
      → admitted_alone env times (some bucket) + bucket.count ≤ env.max
  unfolding admitted_alone check_alone
  admitted_open [] bucket w opened bound = omega arith
  admitted_open (now ∷ times) bucket w opened bound = ground (
    arith,
    admitted_open times bucket w.2,
    admitted_open times (record bucket { count = bucket.count + 1 }) w.2,
  )

  admitted_old :
      (times : List ℕ) (bucket : RateLimitBucket)
      → Within from env.window_ms times
      → bucket.count ≤ env.max
      → admitted_alone env times (some bucket) + bucket.count ≤ 2 * env.max
  unfolding admitted_alone check_alone
  admitted_old [] bucket w bound = omega arith
  admitted_old (now ∷ times) bucket w bound = ground (
    arith,
    admitted_old times bucket w.2,
    admitted_old times (record bucket { count = bucket.count + 1 }) w.2,
    admitted_open times (record { count = 1; window_start = now }) w.2,
  )

  admitted_alone-le-twice :
      (times : List ℕ) (bucket : Option RateLimitBucket)
      → Within from env.window_ms times
      → CountFits env bucket
      → admitted_alone env times bucket ≤ 2 * env.max
  unfolding admitted_alone check_alone
  admitted_alone-le-twice [] bucket w fits = omega arith
  admitted_alone-le-twice (now ∷ times) none w fits =
      omega (arith, admitted_open times (record { count = 1; window_start = now }) w.2)
  admitted_alone-le-twice (now ∷ times) (some bucket) w fits =
      omega (arith, admitted_old (now ∷ times) bucket w fits)

module _ (env : RateLimits) (user_id : String) where
  check-CountFits :
      1 ≤ env.max
      → (now : ℕ) (caller : String) (buckets : Buckets) → CountFits env (lookup user_id buckets)
      → CountFits env (lookup user_id (check_message_rate_limit env now caller buckets).1)
  unfolding check_alone
  check-CountFits max_pos now caller buckets fits =
      ground (arith, lookup-check env now caller buckets user_id, str_eq_iff caller user_id)

  buckets_after-CountFits :
      1 ≤ env.max
      → (calls : List (ℕ × String)) (buckets : Buckets) → CountFits env (lookup user_id buckets)
      → CountFits env (lookup user_id (buckets_after env calls buckets))
  unfolding buckets_after
  buckets_after-CountFits max_pos [] buckets fits = fits
  buckets_after-CountFits max_pos ((now, caller) ∷ calls) buckets fits =
      buckets_after-CountFits max_pos calls (check_message_rate_limit env now caller buckets).1
        (check-CountFits max_pos now caller buckets fits)

-- After any history, the calls of a user that fall in an interval of one window's length are
-- allowed at most twice the maximum, whatever the other users do.
pub admitted-le-twice-max :
    (env : RateLimits) (user_id : String) (history calls : List (ℕ × String)) (from : ℕ)
    → 1 ≤ env.max
    → Within from env.window_ms (times_of user_id calls)
    → admitted env user_id calls (buckets_after env history []) ≤ 2 * env.max
admitted-le-twice-max env user_id history calls from max_pos w =
    rw (admitted-eq-admitted_alone env user_id calls (buckets_after env history [])) (
      admitted_alone-le-twice env from max_pos (times_of user_id calls) _ w
        (buckets_after-CountFits env user_id max_pos history [] (unfold lookup in tt)))

admitted_in_window :
    (env : RateLimits) (times : List ℕ) (bucket : RateLimitBucket)
    → Within bucket.window_start env.window_ms times
    → bucket.count ≤ env.max
    → admitted_alone env times (some bucket) + bucket.count
      ≡ min (length times + bucket.count) env.max
unfolding admitted_alone check_alone
admitted_in_window env [] bucket w bound = omega arith
admitted_in_window env (now ∷ times) bucket w bound = ground (
  arith,
  admitted_in_window env times bucket w.2,
  admitted_in_window env times (record bucket { count = bucket.count + 1 }) w.2,
)

-- No window of the user is open at this time: there was none, or the last one has passed.
abbrev pub HasNoWindow : RateLimits → ℕ → Option RateLimitBucket → Type 0
HasNoWindow env now none = Unit
HasNoWindow env now (some bucket) = bucket.window_start + env.window_ms ≤ now

opens :
    (env : RateLimits) (start : ℕ) (times : List ℕ) (old : Option RateLimitBucket)
    → HasNoWindow env start old
    → admitted_alone env (start ∷ times) old
      ≡ 1 + admitted_alone env times (some (record { count = 1; window_start = start }))
unfolding admitted_alone check_alone
opens env start times none h = omega arith
opens env start times (some bucket) h = ground (arith, h)

-- A user's call comes when no window of theirs is open: they never called, or the window of their
-- last bucket has passed. Then of this call and of those that they make within one window's length
-- of it, exactly the first `max` are allowed, where `max` is at least 1: all of them, if they are no
-- more than that.
pub admitted-eq-min :
    (env : RateLimits) (user_id : String) (start : ℕ) (calls : List (ℕ × String))
    (buckets : Buckets)
    → 1 ≤ env.max
    → HasNoWindow env start (lookup user_id buckets)
    → Within start env.window_ms (times_of user_id calls)
    → admitted env user_id ((start, user_id) ∷ calls) buckets
      ≡ min (length (times_of user_id calls) + 1) env.max
admitted-eq-min env user_id start calls buckets max_pos closed w =
    let e = opens env start (times_of user_id calls) (lookup user_id buckets) closed in
    rw
      (
        admitted-eq-admitted_alone env user_id ((start, user_id) ∷ calls) buckets,
        str_eq_refl user_id,
        e,
      )
      (omega (
        arith,
        admitted_in_window env (times_of user_id calls) (record { count = 1; window_start = start })
            w max_pos,
      ))
