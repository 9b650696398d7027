-- ===== src/Auth.antt =====
-- Codes that are mailed to an address, for a registration and for a forgotten password
-- (app/pages/auth.py).
pub mod Codes
pub mod Requests
mod Tests
