-- ===== src/Tests.antt =====
-- Runs of the model, and the theorems at concrete inputs.
mod Fixtures
mod Vesting
mod Tranche
mod Accounting
mod Money
mod Setup
mod Outflow
mod Migration
mod Governance
mod Proposals
mod Resolved
mod Roles
mod Mocked
mod Units
mod Handlers
mod Answers
