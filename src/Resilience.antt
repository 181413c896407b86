-- ===== src/Resilience.antt =====
-- The resilience of the broker's client: src/kis_portfolio/clients/kis_resilience.py. Times and
-- durations are naturals of one small unit, and the loop's clock is an argument of each operation.
-- The settings are read from the environment by `positive_int_env` and `positive_float_env`, which
-- `Settings` has; the operations take the values read. `Circuit` is the circuit breaker, `Limiter`
-- the spacing and cooldown of requests, `Bulkhead` the bound on requests in flight and in the queue.
pub mod Settings
pub mod Circuit
pub mod Limiter
pub mod Bulkhead
mod Tests
