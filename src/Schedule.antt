-- ===== src/Schedule.antt =====
-- The background scheduler (scheduler.py) and the schedule of the backups (backup_manager.py).
pub mod Cron
pub mod Loop
pub mod Tasks
pub mod Laws
pub mod Tests
