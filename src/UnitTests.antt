-- ===== src/UnitTests.antt =====
-- The unit tests of the repository, its `#[cfg(test)]` modules, run on the model. A test is a call on the
-- storage that panics where an assertion or an `unwrap` of the source does; it passes when it returns.
pub mod Equality
pub mod Answers
pub mod Mock
pub mod Vesting
pub mod Tranche
pub mod Parts
pub mod Setup
pub mod Operators
pub mod Proposals
pub mod Processing
pub mod Internal
pub mod Queries
pub mod Migration
