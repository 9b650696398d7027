-- ===== src/Accounts.antt =====
-- The accounts of messengers and the groups they are in.
pub mod Resync
mod Tests
