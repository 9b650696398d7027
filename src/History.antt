-- ===== src/History.antt =====
-- The history of sends and its repeat button (app/pages/history.py).
pub mod Slot
pub mod Handler
pub mod Availability
mod Tests
