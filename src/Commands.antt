-- ===== src/Commands.antt =====
-- The governed Remote MCP commands: src/kis_portfolio/services/remote_commands.py over the ports of
-- src/kis_portfolio/adapters/outbound/memory_state.py and memory_commands.py. `Store` is the state
-- store with its claims, `Revisions` the append-only owner revisions, `Queue` the managed runs, and
-- `Application` the command boundary that runs each request once.
pub mod Store
pub mod Revisions
pub mod Queue
pub mod Application
mod Tests
