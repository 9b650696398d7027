-- ===== src/Scheduling.antt =====
-- The schedules of a user's ads: when a schedule runs next, which sends a tick of the scheduler
-- collects, and one send (app/services/schedule_service.py, app/services/schedule_rules.py and
-- app/application/scheduling/use_cases.py).
pub mod NextRun
pub mod Rules
pub mod Collect
pub mod Send
pub mod Tests
