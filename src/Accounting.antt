-- ===== src/Accounting.antt =====
-- The money of the contract: what was locked is what was paid out and what is still to vest.
pub mod Frame
pub mod Sound
pub mod Withdraw
pub mod Rewards
pub mod Execute
pub mod Conservation
pub mod Total
pub mod Atomic
pub mod Surplus
pub mod Reported
pub mod Payments
pub mod Sent
pub mod Panics
pub mod Returns
pub mod Shown
pub mod Matured
pub mod Early
pub mod Ends
