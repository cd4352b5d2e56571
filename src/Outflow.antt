-- ===== src/Outflow.antt =====
-- What leaves the contract: the messages of its proposals, and the tokens that its responses pay.
pub mod Own
pub mod Paid
pub mod Run
pub mod Receivers
pub mod Strangers
pub mod Addresses
pub mod Others
