-- ===== src/Cosmos.antt =====
-- The data of cosmwasm_std, cw3 and cw_utils that the contract reads and makes.
mod Chain
mod Voting
pub use Chain.*
pub use Voting.*
