-- ===== src/Attention.antt =====
-- The deterministic attention scheduler: attention.py and the primitives that it is built on.
pub mod Resources
pub mod Metadata
pub mod Allocation
pub mod Scheduler
pub mod Admission
pub mod Observation
pub mod Assignments
pub mod Focus
pub mod Preemption
