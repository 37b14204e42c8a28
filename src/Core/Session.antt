-- ===== src/Core/Session.antt =====
-- crates/overcrow-core/src/session.rs: which desktop session runs, and the systemd units that are
-- started and stopped with a game.
pub mod Desktop
pub mod Plans
pub mod Coordinator
pub mod Loop
pub mod Shutdown
