-- ===== src/Supervisor/Evacuation.antt =====
-- supervisor/internal/evacuation: what is captured off-node, and when.
pub mod DirtyPaths
pub mod FilePaths
pub mod Archive
pub mod ObjectStore
pub mod Git
pub mod Agent
mod Fixtures
mod Examples
pub mod Trigger
pub mod Watching
pub mod Settled
