-- ===== src/Portfolio.antt =====
-- src/kis_portfolio/modules/portfolio/reconstruction.py: the position reconstruction contract.
-- `Contract` holds its data and their construction, `Assessment` the classification of a replay, and
-- `Allocation` the plan of a sell over open lots.
pub mod Contract
pub mod Assessment
pub mod Allocation
mod Tests
