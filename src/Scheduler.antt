-- ===== src/Scheduler.antt =====
-- internal/common/scheduler: HeavierStartScheduler.go and policy.go, in the modules below.
pub mod Sets
pub mod Graph
pub mod Chunk
pub mod Launch
pub mod Run
