-- ===== src/Scheduler/Engine/Laws.antt =====
-- What the engine guarantees, by the part of the code that it is about.
pub mod Retry
pub mod Loop
pub mod Minute
pub mod Notify
pub mod Clock
