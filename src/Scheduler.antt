-- ===== src/Scheduler.antt =====
-- The scheduler of background jobs: src/mei/application/services/scheduler.py over
-- src/mei/infrastructure/repositories/schedules.py.
pub mod Repository
pub mod Service
pub mod Loop
pub mod Runs
pub mod Accounts
pub mod Attended
pub mod Stuck
mod Tests
