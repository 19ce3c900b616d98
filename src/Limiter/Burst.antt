-- ===== src/Limiter/Burst.antt =====
-- The windows of the limiter are fixed: each starts at the first call after the one before. The
-- comment on `checkMessageRateLimit` calls them sliding.
use react_websocket_chat.Prelude.{
  ℕ, zero, suc, ◌+◌, ◌-◌, ◌*◌, ◌≤◌, ◌<◌, String, ◌≡◌, refl, ◌∙◌, List, [], ◌∷◌, some, arith, lookup,
  insert, str_eq_refl,
}
use react_websocket_chat.Limiter.{
  RateLimits, RateLimitBucket, check_message_rate_limit, admitted, buckets_after,
}
use react_websocket_chat.Limiter.Users.{
  check_alone, admitted_alone, times_of, admitted-eq-admitted_alone,
}
use react_websocket_chat.Limiter.Window.{Within}

-- What a sliding window promises: in no interval of one window's length are more than `max` calls
-- of one user allowed.
abbrev pub IsSliding : RateLimits → Type 0
IsSliding env =
    (user_id : String) (history calls : List (ℕ × String)) (from : ℕ)
    → Within from env.window_ms (times_of user_id calls)
    → admitted env user_id calls (buckets_after env history []) ≤ env.max

abbrev pub repeat {ℓ} : {A : Type ℓ} → ℕ → A → List A → List A
repeat zero a rest = rest
repeat (suc n) a rest = a ∷ repeat n a rest

times_of-repeat :
    (user_id : String) (n now : ℕ) (rest : List (ℕ × String))
    → times_of user_id (repeat n (now, user_id) rest) ≡ repeat n now (times_of user_id rest)
times_of-repeat user_id zero now rest = refl
times_of-repeat user_id (suc n) now rest =
    rw (str_eq_refl user_id, times_of-repeat user_id n now rest)

Within-repeat :
    (from width n now : ℕ) (rest : List ℕ)
    → from ≤ now
    → now < from + width
    → Within from width rest
    → Within from width (repeat n now rest)
Within-repeat from width zero now rest lo hi w = w
Within-repeat from width (suc n) now rest lo hi w =
    (lo, hi, Within-repeat from width n now rest lo hi w)

-- Calls in an open window are allowed up to the maximum.
admitted_alone-repeat :
    (env : RateLimits) (n now : ℕ) (rest : List ℕ) (bucket : RateLimitBucket)
    → now < bucket.window_start + env.window_ms
    → bucket.count + n ≤ env.max
    → admitted_alone env (repeat n now rest) (some bucket)
      ≡ n + admitted_alone env rest (some (record bucket { count = bucket.count + n }))
unfolding admitted_alone check_alone
admitted_alone-repeat env zero now rest bucket open_until room =
    let e : bucket.count ≡ bucket.count + 0 = omega arith in rw (← e) (omega arith)
admitted_alone-repeat env (suc n) now rest bucket open_until room =
    let e : bucket.count + 1 + n ≡ bucket.count + suc n = omega arith in
    let ih : admitted_alone env (repeat n now rest)
          (some (record bucket { count = bucket.count + 1 }))
        ≡ n + admitted_alone env rest (some (record bucket { count = bucket.count + suc n })) =
      rw e at (
        admitted_alone-repeat env n now rest (record bucket { count = bucket.count + 1 }) open_until
          (omega arith)) in
    ground (arith, ih)

-- One call opens a window; the rest of its allowance comes in its last millisecond, and a whole
-- new allowance in the millisecond after.
abbrev burst : RateLimits → String → List (ℕ × String)
burst env user_id =
    repeat (env.max - 1) (env.window_ms - 1, user_id) (repeat env.max (env.window_ms, user_id) [])

-- The first of them resets an expired bucket.
admitted_alone-reset :
    (env : RateLimits) (n now : ℕ) (bucket : RateLimitBucket)
    → bucket.window_start + env.window_ms ≤ now
    → 1 ≤ env.window_ms
    → n ≤ env.max
    → admitted_alone env (repeat n now []) (some bucket) ≡ n
admitted_alone-reset env zero now bucket expired wide room = unfold admitted_alone in refl
admitted_alone-reset env (suc n) now bucket expired wide room =
    let fresh : RateLimitBucket = record { count = 1; window_start = now } in
    let later : admitted_alone env (repeat n now []) (some fresh) ≡ n =
      admitted_alone-repeat env n now [] fresh (omega arith) (omega arith)
      ∙ (unfold admitted_alone in omega arith) in
    unfold admitted_alone check_alone in ground (arith, later)

lookup-opened :
    (env : RateLimits) (user_id : String)
    → lookup user_id (buckets_after env ((0, user_id) ∷ []) [])
      ≡ some (record { count = 1; window_start = 0 })
unfolding buckets_after check_message_rate_limit lookup insert
lookup-opened env user_id = rw (str_eq_refl user_id)

admitted-burst :
    (env : RateLimits) (user_id : String)
    → 2 ≤ env.max
    → 2 ≤ env.window_ms
    → admitted env user_id (burst env user_id) (buckets_after env ((0, user_id) ∷ []) [])
      ≡ 2 * env.max - 1
admitted-burst env user_id most wide =
    let burst' : List ℕ = repeat env.max env.window_ms [] in
    rw
      (
        admitted-eq-admitted_alone env user_id (burst env user_id)
            (buckets_after env ((0, user_id) ∷ []) []),
        lookup-opened env user_id,
        times_of-repeat user_id (env.max - 1) (env.window_ms - 1)
            (repeat env.max (env.window_ms, user_id) []),
        times_of-repeat user_id env.max env.window_ms [],
      )
      (omega (
        arith,
        admitted_alone-repeat env (env.max - 1) (env.window_ms - 1) burst'
            (record { count = 1; window_start = 0 }) (omega arith) (omega arith),
        admitted_alone-reset env env.max env.window_ms
            (record { count = 1 + (env.max - 1); window_start = 0 }) (omega arith) (omega arith)
            (omega arith),
      ))

-- Whatever the maximum and the window, from 2 on, the limiter is not a sliding window.
pub not-IsSliding : (env : RateLimits) → 2 ≤ env.max → 2 ≤ env.window_ms → ¬ IsSliding env
not-IsSliding env most wide sliding =
    let w : Within (env.window_ms - 1) env.window_ms (times_of "u" (burst env "u")) =
      rw
        (
          times_of-repeat "u" (env.max - 1) (env.window_ms - 1)
              (repeat env.max (env.window_ms, "u") []),
          times_of-repeat "u" env.max env.window_ms [],
        )
        (Within-repeat (env.window_ms - 1) env.window_ms (env.max - 1) (env.window_ms - 1)
          (repeat env.max env.window_ms []) (omega arith) (omega arith)
          (Within-repeat (env.window_ms - 1) env.window_ms env.max env.window_ms [] (omega arith)
            (omega arith) tt)) in
    omega (
      arith,
      admitted-burst env "u" most wide,
      sliding "u" ((0, "u") ∷ []) (burst env "u") (env.window_ms - 1) w,
    )
