-- ===== src/Resilience/Limiter/Spacing.antt =====
-- What the rate limiter promises: spaced starts, and none before a cooldown has passed.
use native.Mathlib.Nat.{pow-suc}
use kis_portfolio_mcp.Common.{
  ap, ◌∙◌, ℕ, ◌+◌, ◌*◌, ◌^◌, ◌≤◌, ◌≡◌, Option, none, List, [], ◌∷◌, All, arith,
}
use kis_portfolio_mcp.Resilience.Limiter.{
  RateLimitState, LimitSettings, min, delay, start, wait_for_slot, cooldown,
  impose_rate_limit_cooldown, record_rate_limit_success, LimitEvent, wait, reject, succeed, starts,
}

-- Each start is at least the interval after the one before it.
abbrev pub SpacedFrom : ℕ → ℕ → List ℕ → Type 0
SpacedFrom interval earliest [] = Unit
SpacedFrom interval earliest (t ∷ ts) = (earliest ≤ t) × SpacedFrom interval (t + interval) ts

start_allowed :
    (now late : ℕ) (state : RateLimitState)
    → (state.next_allowed_at ≤ start now late state) × (state.blocked_until ≤ start now late state)
unfolding delay
start_allowed now late state = (ground arith, ground arith)

impose-blocked_until :
    (settings : LimitSettings) (now : ℕ) (retry_after : Option ℕ) (state : RateLimitState)
    → let (imposed, state') = impose_rate_limit_cooldown settings now retry_after state in
      (state.blocked_until ≤ state'.blocked_until) × (now + imposed ≤ state'.blocked_until)
unfolding impose_rate_limit_cooldown
impose-blocked_until settings now retry_after state = (ground arith, ground arith)

product_doubles : (a q : ℕ) → a * (q * 2) ≡ 2 * (a * q)
product_doubles a q = ground arith

power_doubles : (a n : ℕ) → a * 2 ^ (n + 1) ≡ 2 * (a * 2 ^ n)
power_doubles a n =
    ap (λ k. a * 2 ^ k) (omega arith) ∙ ap (λ q. a * q) (pow-suc 2 n) ∙ product_doubles a (2 ^ n)

min_doubles : (m x y : ℕ) → y ≡ 2 * x → min m (min m y) ≡ min m (2 * min m (min m x))
min_doubles m x y h = ground arith

-- Whatever waits, rejections and successes come, at whatever times, any two requests of a scope that
-- start one after the other start at least the interval apart.
pub starts-SpacedFrom :
    (settings : LimitSettings) (es : List LimitEvent) (state : RateLimitState)
    → SpacedFrom settings.interval state.next_allowed_at (starts settings es state)
unfolding starts wait_for_slot impose_rate_limit_cooldown
starts-SpacedFrom settings [] state = tt
starts-SpacedFrom settings (wait now late ∷ es) state = (
  (start_allowed now late state).0,
  starts-SpacedFrom settings es (wait_for_slot settings now late state).1,
)
starts-SpacedFrom settings (reject now retry_after ∷ es) state =
    starts-SpacedFrom settings es (impose_rate_limit_cooldown settings now retry_after state).1
starts-SpacedFrom settings (succeed ∷ es) state =
    starts-SpacedFrom settings es (record_rate_limit_success state)

starts-blocked :
    (settings : LimitSettings) (es : List LimitEvent) (state : RateLimitState) (bound : ℕ)
    → bound ≤ state.blocked_until
    → All (λ t. bound ≤ t) (starts settings es state)
unfolding starts wait_for_slot
starts-blocked settings [] state bound h = tt
starts-blocked settings (wait now late ∷ es) state bound h = (
  omega (arith, (start_allowed now late state).1),
  starts-blocked settings es (wait_for_slot settings now late state).1 bound h,
)
starts-blocked settings (reject now retry_after ∷ es) state bound h =
    starts-blocked settings es (impose_rate_limit_cooldown settings now retry_after state).1 bound
      (omega (arith, (impose-blocked_until settings now retry_after state).0))
starts-blocked settings (succeed ∷ es) state bound h =
    starts-blocked settings es (record_rate_limit_success state) bound h

-- A rejection holds back its whole scope: no request starts before the cooldown it imposed is over,
-- whatever other callers do meanwhile.
pub impose_rate_limit_cooldown-blocks :
    (settings : LimitSettings) (now : ℕ) (retry_after : Option ℕ) (state : RateLimitState)
    (es : List LimitEvent)
    → let (imposed, state') = impose_rate_limit_cooldown settings now retry_after state in
      All (λ t. now + imposed ≤ t) (starts settings es state')
impose_rate_limit_cooldown-blocks settings now retry_after state es =
    starts-blocked settings es (impose_rate_limit_cooldown settings now retry_after state).1 _
      (impose-blocked_until settings now retry_after state).1

-- The cooldown never exceeds the set maximum. Without a time to retry after, it is the base after the
-- first rejection in a row, and each further rejection doubles it, up to the maximum.
pub cooldown-doubles :
    (settings : LimitSettings) (retry_after : Option ℕ) (n : ℕ)
    → (cooldown settings retry_after n ≤ settings.maximum)
      × (cooldown settings none 1 ≡ min settings.maximum settings.base)
      × (cooldown settings none (n + 2) ≡ min settings.maximum (2 * cooldown settings none (n + 1)))
unfolding cooldown
cooldown-doubles settings retry_after n = (
  ground arith,
  ground arith,
  min_doubles settings.maximum _ _ (
      ap (λ k. settings.base * 2 ^ k) (omega arith)
      ∙ power_doubles settings.base n
      ∙ ap (λ k. 2 * (settings.base * 2 ^ k)) (omega arith)),
)
