-- ===== src/Alerts.antt =====
-- src/kis_portfolio/modules/monitoring/alerts.py. `Python` holds what the code asks of the language's
-- library, `Rules` the rule versions, `Redaction` the search for sensitive text, `Candidates` the alert
-- candidates `Transition` the state machine and
-- `Warehouse` its persistence.
pub mod Python
pub mod Rules
pub mod Redaction
pub mod Candidates
pub mod Transition
pub mod Warehouse
pub mod Dispatch
mod Tests
