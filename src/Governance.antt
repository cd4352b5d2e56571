-- ===== src/Governance.antt =====
-- The proposals of the admins, and their votes.
pub mod Step
pub mod Frame
pub mod Votes
pub mod Sound
pub mod Later
pub mod Run
pub mod Promises
pub mod Ids
pub mod Outcomes
pub mod Carried
pub mod Live
pub mod Lasting
pub mod Configured
pub mod Backed
pub mod SelfCalls
pub mod Resolved
