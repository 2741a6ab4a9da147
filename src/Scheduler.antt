-- ===== src/Scheduler.antt =====
-- The cron expressions and the scheduler engine: src/shichimimi_agent/scheduler.
pub mod Number
pub mod Calendar
pub mod Field
pub mod Cron
pub mod Engine
