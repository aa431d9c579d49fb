-- ===== src/Pipeline.antt =====
-- internal/pipeline: the run manager and the scheduler.
pub mod Conditions
pub mod TopoSort
pub mod Scheduler
pub mod Manager
pub mod Progress
