-- ===== src/Worker.antt =====
-- The tasks of the background worker (app/worker/tasks.py).
pub mod Dispatch
pub mod Retry
pub mod Sync
pub mod Containers
pub mod Results
pub mod Tests
