-- ===== src/Market.antt =====
-- The contracts of market revisions: src/kis_portfolio/modules/market/dividends.py, filings.py and macro.py. A
-- validator is the list of its guards, each a test with the message that it raises; the first test
-- that holds raises. Dates are numbers of days, decimals integers of one small unit.
pub mod Guards
pub mod Dividends
pub mod Filings
pub mod Macro
mod Tests
