-- ===== src/Controller/Workspaces.antt =====
-- controller/internal/controller: the reconciler of the workspaces (workspace_controller.go,
-- lifecycle.go, evacuation.go, connections.go).
pub mod Resources
pub mod Cluster
pub mod Calls
pub mod Blackboard
pub mod Documents
pub mod Evacuation
pub mod Lifecycle
pub mod Conflicts
pub mod Passes
pub mod Captures
pub mod Owners
pub mod Safe
pub mod Ready
pub mod Notices
pub mod Rollback
pub mod Admission
pub mod Credentials
pub mod Provisioning
pub mod Reconcile
pub mod Fixtures
mod Examples
mod Passing
