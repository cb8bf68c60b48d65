-- ===== src/Supervisor.antt =====
-- The Session Supervisor (supervisor/).
pub mod Evacuation
pub mod Testrun
pub mod Session
mod Examples
