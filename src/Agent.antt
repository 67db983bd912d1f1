-- ===== src/Agent.antt =====
-- agent: what runs on each host to turn containers into service instances.
pub mod Container
pub mod SyncState
pub mod SyncInstances
mod Tests
pub mod DockerListener
pub mod SetInstances
