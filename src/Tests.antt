-- ===== src/Tests.antt =====
-- Example data, and the theorems applied to it: each test names what it runs on.
mod Fixtures
mod Claims
mod Runs
mod Pools
mod Suites
mod Examples
mod Ticks
mod Expressions
mod Graphs
mod Settings
mod Fires
mod Requests
mod Events
mod Queries
