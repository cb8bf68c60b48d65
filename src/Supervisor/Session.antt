-- ===== src/Supervisor/Session.antt =====
-- supervisor/internal/session: watching the session of a workspace.
pub mod Model
pub mod Mismatches
pub mod Transcript
pub mod Health
pub mod Probe
pub mod Terminal
pub mod Alone
