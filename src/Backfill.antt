-- ===== src/Backfill.antt =====
-- The planner of history backfills, src/kis_portfolio/services/trade_cash_backfill.py. `Scope` has the
-- accounts, `Plan` the partitions of a window of days, `Budget` the policy of page limits and its
-- application to a plan, `Gate` the reservation of physical calls, `Keys` the text of partition keys.
-- A date is the number of its day. The proleptic calendar, Unicode case and SHA-256 are parameters.
pub mod Scope
pub mod Plan
pub mod Budget
pub mod Gate
pub mod Keys
mod Tests
