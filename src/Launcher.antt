-- ===== src/Launcher.antt =====
-- internal/launcher: the launcher keeps one version of the core running, and goes back from a bad one.
pub mod CrashLoop
pub mod Disk
pub mod Supervisor
pub mod Scenario
pub mod Bootstrap
