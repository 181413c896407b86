-- ===== src/Lib.antt =====
-- A verification library of the portfolio server's core logic, under src/kis_portfolio. Each part of the
-- program that is modelled is a module here, with its laws in child modules and its tests, which run the
-- definitions on concrete inputs, in a child named Tests.
--
-- Common: the shared helpers. Tests has the Boolean tests on numbers, Lists and Text what the code uses of
-- Python's lists and strings, Results the exceptions as values, Int the integers, Sorting the stable
-- sort, Dict the dictionaries in insertion order with their laws, Separators the joined texts that are split
-- again.
--
-- Portfolio: modules/portfolio/reconstruction.py. Contract has the decimals, lots and requests with their
-- checks, Assessment is `assess_reconstruction`, Allocation is `plan_sell_allocation`. A Decimal is an
-- integer of one small unit.
--
-- Alerts: modules/monitoring/alerts.py. Python has the values of documents, Rules is
-- `AlertRuleVersion.from_document`, Redaction the regular expressions, Candidates is
-- `AlertCandidate.build`, Transition is `decide_alert_transition`. Warehouse and Dispatch are
-- adapters/outbound/alert_warehouse.py: the tables of rules, candidates, states and outcomes over that
-- machine, and the claims and attempts of deliveries. A statement on the tables is one step, and a
-- transaction that breaks a unique key changes nothing.
--
-- Auth: adapters/auth/provider.py over adapters/outbound/document_auth_repository.py, whose documents stand
-- in the store of Commands. Records has the documents, Repository the operations on them, Provider the
-- codes and tokens of OAuth. Revocation is about grants, Rotation about refresh tokens. SingleUse is a
-- step relation in which workers that exchange one code interleave: a claim, a read and a write are a
-- step each. Times are seconds.
--
-- Backfill: services/trade_cash_backfill.py. Scope is the normalization of accounts, Plan the partitions of
-- `plan_trade_cash_backfill`, Budget is `apply_call_budget`, Gate is `BackfillCallBudget`, whose methods run
-- under its lock. A date is its day number. The keys of Plan are split again as the coverage of trades
-- splits them (Keys).
--
-- Commands: the governed remote commands. Store is adapters/outbound/memory_state.py, Revisions and
-- Queue are adapters/outbound/memory_commands.py, Application is services/remote_commands.py, which runs
-- the operations of the latter two once, under a claim in the store. A method that holds its object's lock
-- is one step from a state to a state; a command is a sequence of such steps, each with a reading of the
-- clock.
--
-- Pipeline: platform/pipeline.py. Tables has the rows and statements on the tables of `control`, Runner the
-- registry and the run of a definition's stages, whose handlers are functions of a context and a state.
-- The statements themselves and the rendering of evidence as JSON are taken to succeed.
--
-- Coverage: the interval arithmetic of services/trade_coverage.py, on days as numbers.
--
-- Market: the revision records of modules/market/dividends.py, filings.py and macro.py. A validator
-- is the list of its guards in order (Guards).
--
-- Resilience: clients/kis_resilience.py. Settings, Circuit, Limiter and Bulkhead are on the state of
-- one scope; the bulkhead is a step relation in which requests interleave.
--
-- Bounds and fuel: every loop of the modelled code but one runs over a list, so it is a structural
-- recursion. The loop of `_shards` in Backfill has as fuel a round for each day of the window, which is
-- enough since a round passes one day at least (Tiles). Times, durations and quantities are unbounded
-- naturals or integers, as are Python's; float times are counted in one small unit.
--
-- Parameters: SHA-256, JSON, `isoformat`, the Unicode digit test, pydantic's validation and dump of
-- requests, the parser of numbers of settings, fresh identifiers and bearer values, the keyed digest of
-- bearer values, the tables of Unicode's letter case, and the calendar of dates.
--
-- Not modelled: the HTTP client of the broker, the warehouse's SQL and migrations but for the statements of
-- the pipeline runtime and of the alert warehouse, the MCP and batch adapters, the clients and users of
-- OAuth, floating-point analytics, release scripts and governance data, since they are I/O, glue or
-- numerics on floats; nor are position replay, cash reconciliation and filing artifacts.
pub mod Common
pub mod Portfolio
pub mod Alerts
pub mod Commands
pub mod Pipeline
pub mod Coverage
pub mod Market
pub mod Resilience
pub mod Auth
pub mod Backfill
