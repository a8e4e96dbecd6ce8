-- ===== src/RenderJob.antt =====
-- internal/renderjob: the manager of render jobs and of its image cache.
pub mod Model
pub mod Protocol
pub mod Cache
pub mod Admission
pub mod Leases
pub mod Visitors
pub mod Worker
pub mod Sound
pub mod System
pub mod Start
pub mod Transport
mod Samples
mod Tests
