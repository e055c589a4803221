-- ===== src/Tests.antt =====
-- Runs at concrete inputs.
mod Fixtures
mod Ledger
mod Operations
mod Validation
mod Tasks
mod Clients
mod Enrolment
mod Provider
mod Agent
mod Host
mod Subnet
mod Apply
mod Repeats
