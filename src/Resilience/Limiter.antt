-- ===== src/Resilience/Limiter.antt =====
-- The rate limiter of clients/kis_resilience.py: `wait_for_slot`, `impose_rate_limit_cooldown` and
-- `record_rate_limit_success`, on the state of one scope. Each runs under the scope's lock, so each
-- is one step; `late` is how long after the end of its delay a sleeper goes on.
pub mod Spacing
use kis_portfolio_mcp.Common.{
  ℕ, ◌+◌, ◌*◌, ◌^◌, ◌-◌, Option, none, some, List, [], ◌∷◌, leb, ◌==◌, if◌then◌else◌, Bool, true,
  false,
}

-- `RateLimitState`
pub record RateLimitState : Type 0 where
  pub next_allowed_at : ℕ
  pub blocked_until : ℕ
  pub consecutive_rejections : ℕ

-- The settings, which are positive.
pub record LimitSettings : Type 0 where
  pub interval : ℕ
  pub base : ℕ
  pub maximum : ℕ

abbrev pub max : ℕ → ℕ → ℕ
max a b = if leb a b then b else a

abbrev pub min : ℕ → ℕ → ℕ
min a b = if leb a b then a else b

-- The delay that `wait_for_slot` sleeps: `max(0.0, allowed_at - now)`
unfoldable pub delay : ℕ → RateLimitState → ℕ
delay now state = max state.next_allowed_at state.blocked_until - now

-- When the request starts.
abbrev pub start : ℕ → ℕ → RateLimitState → ℕ
start now late state = now + delay now state + late

-- `wait_for_slot`
unfoldable pub wait_for_slot : LimitSettings → ℕ → ℕ → RateLimitState → ℕ × RateLimitState
wait_for_slot settings now late state =
    (delay now state, record state { next_allowed_at = start now late state + settings.interval })

-- `retry_after_seconds or adaptive`
abbrev pub or_adaptive : Option ℕ → ℕ → ℕ
or_adaptive none adaptive = adaptive
or_adaptive (some retry_after) adaptive = if retry_after == 0 then adaptive else retry_after

-- The cooldown of the n-th rejection in a row.
unfoldable pub cooldown : LimitSettings → Option ℕ → ℕ → ℕ
cooldown settings retry_after n =
    min settings.maximum
      (or_adaptive retry_after (min settings.maximum (settings.base * 2 ^ (n - 1))))

-- `impose_rate_limit_cooldown`
unfoldable pub impose_rate_limit_cooldown :
    LimitSettings → ℕ → Option ℕ → RateLimitState → ℕ × RateLimitState
impose_rate_limit_cooldown settings now retry_after state =
    let n = state.consecutive_rejections + 1 in
    let imposed = cooldown settings retry_after n in
    (
      imposed,
      record state {
        consecutive_rejections = n;
        blocked_until = max state.blocked_until (now + imposed);
      },
    )

-- `record_rate_limit_success`
abbrev pub record_rate_limit_success : RateLimitState → RateLimitState
record_rate_limit_success state = record state { consecutive_rejections = 0 }

-- `full_jitter_delay` draws from 0 to this bound.
abbrev pub jitter_cap : ℕ → ℕ → ℕ → ℕ
jitter_cap retry_cap retry_base retry_number = min retry_cap (retry_base * 2 ^ retry_number)

-- What the callers of one scope do, in the order of the lock.
pub data LimitEvent : Type 0 where
  wait : (now late : ℕ) → LimitEvent
  reject : (now : ℕ) (retry_after : Option ℕ) → LimitEvent
  succeed : LimitEvent

-- The starts of the requests.
unfoldable pub starts : LimitSettings → List LimitEvent → RateLimitState → List ℕ
starts settings [] state = []
starts settings (wait now late ∷ es) state =
    start now late state ∷ starts settings es (wait_for_slot settings now late state).1
starts settings (reject now retry_after ∷ es) state =
    starts settings es (impose_rate_limit_cooldown settings now retry_after state).1
starts settings (succeed ∷ es) state = starts settings es (record_rate_limit_success state)
