-- ===== src/Core.antt =====
-- crates/overcrow-core/src: the daemon that follows the selected game.
pub mod Classifier
pub mod Stopwatch
pub mod Telemetry
pub mod Runtime
pub mod Session
