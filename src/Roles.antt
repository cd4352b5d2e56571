-- ===== src/Roles.antt =====
-- Who may change what: the members, the addresses that are paid, and what is never written again.
pub mod Frame
pub mod Change
pub mod Listed
pub mod Undone
