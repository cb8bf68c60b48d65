-- ===== src/Controller.antt =====
-- The Workspace Controller (controller/).

pub mod Types
pub mod Templates
pub mod Conditions
pub mod Quota
pub mod Api
pub mod TaskQueue
pub mod Naming
pub mod Workspaces
