-- ===== src/Pipeline.antt =====
-- The managed pipeline runtime, src/kis_portfolio/platform/pipeline.py, over the tables of its
-- connection that it reads and writes. `Tables` is the tables and their statements, `Runner` the
-- registry, the claim of a logical run and the run itself; `Resume` and `Replay` are its laws.
pub mod Tables
pub mod Runner
pub mod Resume
pub mod Replay
mod Tests
