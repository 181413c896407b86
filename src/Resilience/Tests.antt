-- ===== src/Resilience/Tests.antt =====
-- The resilience primitives at concrete states, settings and times.
use kis_portfolio_mcp.Common.{
  str_eq, ◌+◌, ◌≤◌, ◌≡◌, ◌↔◌, ◌⊎◌, refl, String, true, false, Option, none, some, List, [], ◌∷◌,
  length, ok, arith, if◌then◌else◌, strip,
}
use kis_portfolio_mcp.Common.Int.{ℤ, pos}
use kis_portfolio_mcp.Resilience.Settings.{positive_env}
use kis_portfolio_mcp.Resilience.Circuit.{
  CircuitState, CircuitSettings, circuit_open, circuit_half_open, allow_circuit_request,
  record_circuit_failure, drop_old,
}
use kis_portfolio_mcp.Resilience.Circuit.Laws.{
  Before, recent, record_circuit_failure-opens, opened_circuit,
}
use kis_portfolio_mcp.Resilience.Limiter.{
  RateLimitState, LimitSettings, LimitEvent, wait, reject, succeed, starts, cooldown,
  impose_rate_limit_cooldown, wait_for_slot, delay,
}
use kis_portfolio_mcp.Resilience.Limiter.Spacing.{SpacedFrom, starts-SpacedFrom}
use kis_portfolio_mcp.Resilience.Bulkhead.{
  BulkheadState, Callers, new_bulkhead, enter, acquired, enters, acquires, begins, steps, Reachable,
  IsBounded, Reachable-IsBounded,
}

abbrev number : String → Option ℤ
number s = some (pos 7)

set_to_seven : positive_env number "7" 5 ≡ ok 7
unfolding positive_env strip str_eq
set_to_seven = refl

abbrev settings : CircuitSettings
settings = record { threshold = 3; window = 30; open_seconds = 20 }

abbrev failing : CircuitState
failing = record { failures = 1 ∷ 80 ∷ 90 ∷ []; open_until = 0; half_open_probe_active = false }

failing-Before : Before 100 (1 ∷ 80 ∷ 90 ∷ [])
failing-Before = (
  omega arith,
  (omega arith, (omega arith, tt)),
  (omega arith, (omega arith, tt), (omega arith, tt, tt)),
)

record_circuit_failure-opens_example :
    let (opened, state') = record_circuit_failure settings 100 failing in
    ((opened ≡ true) ↔ ((false ≡ true) ⊎ (3 ≤ length (recent 30 100 (1 ∷ 80 ∷ 90 ∷ [])) + 1)))
    × (state'.open_until ≡ (if opened then 100 + 20 else 0))
    × (state'.half_open_probe_active ≡ false)
record_circuit_failure-opens_example =
    record_circuit_failure-opens settings 100 failing failing-Before

opens : (record_circuit_failure settings 100 failing).0 ≡ true
unfolding record_circuit_failure drop_old
opens = refl

opened_circuit_example :
    let opened = (record_circuit_failure settings 100 failing).1 in
    let probed = (allow_circuit_request 120 opened).1 in
    (allow_circuit_request 119 opened ≡ (some circuit_open, opened))
    × ((allow_circuit_request 120 opened).0 ≡ none)
    × (allow_circuit_request 125 probed ≡ (some circuit_half_open, probed))
    × ((record_circuit_failure settings 125 probed).0 ≡ true)
opened_circuit_example =
    opened_circuit settings failing 100 119 120 125 (omega arith) opens (omega arith) (omega arith)
      (omega arith)

abbrev limits : LimitSettings
limits = record { interval = 150; base = 1000; maximum = 10000 }

abbrev idle : RateLimitState
idle = record { next_allowed_at = 0; blocked_until = 0; consecutive_rejections = 0 }

abbrev traffic : List LimitEvent
traffic = wait 10 0 ∷ wait 20 1 ∷ reject 200 none ∷ wait 210 0 ∷ succeed ∷ wait 5000 0 ∷ []

traffic-starts : starts limits traffic idle ≡ 10 ∷ 161 ∷ 1200 ∷ 5000 ∷ []
unfolding starts wait_for_slot delay impose_rate_limit_cooldown cooldown
traffic-starts = refl

starts-SpacedFrom_example : SpacedFrom 150 0 (starts limits traffic idle)
starts-SpacedFrom_example = starts-SpacedFrom limits traffic idle

abbrev entered : BulkheadState
entered = record { available = 1; max_waiters = 2; waiters = 1 }

enters_free : enter (new_bulkhead 1 2) ≡ some entered
unfolding enter
enters_free = refl

abbrev nobody : Callers
nobody = record { waiting = 0; running = 0 }

abbrev one_running : Callers
one_running = record { waiting = 0; running = 1 }

one_in_flight : Reachable 1 2 (acquired entered, one_running)
one_in_flight =
    steps (entered, record { waiting = 1; running = 0 }) (acquired entered, one_running)
      (steps (new_bulkhead 1 2, nobody) (entered, record { waiting = 1; running = 0 }) begins
        (enters (new_bulkhead 1 2) entered nobody enters_free))
      (acquires entered 0 0 (omega arith))

Reachable-IsBounded_example : IsBounded 1 2 (acquired entered, one_running)
Reachable-IsBounded_example = Reachable-IsBounded 1 2 (acquired entered, one_running) one_in_flight
