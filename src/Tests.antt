-- ===== src/Tests.antt =====
-- The properties at concrete inputs, and the data that they run on.
mod Passes
mod Statuses
mod Executions
mod Data
mod LedgerRuns
mod Services
mod Contracts
mod Identities
mod Requests
mod Claims
mod Waits
