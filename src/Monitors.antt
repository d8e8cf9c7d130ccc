-- ===== src/Monitors.antt =====
-- Monitors and their notifications: apps/worker/tasks/dispatch_notifications.py over
-- src/mei/infrastructure/repositories/monitors.py, on the relationships and the risks.
pub mod Models
pub mod Evaluation
pub mod Alike
pub mod Once
pub mod Rounds
pub mod Delivery
mod Tests
