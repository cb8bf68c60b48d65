-- ===== src/Supervisor/Testrun.antt =====
-- supervisor/internal/testrun: running the declared suites, and the bounded self-healing.
pub mod Runner
pub mod Failures
pub mod Passing
pub mod Serving
pub mod Heal
pub mod Attempts
pub mod Reverify
pub mod Watch
