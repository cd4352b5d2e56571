-- ===== src/Contract.antt =====
-- contract.rs: the entry points, a module for each group of handlers.
pub mod Ops
pub mod Rewards
pub mod Withdraw
pub mod Propose
pub mod Vote
pub mod Internal
pub mod Instantiate
pub mod Query
pub mod Execute
pub mod Migrate
