-- ===== src/Config.antt =====
-- crates/overcrow-config/src: the lifecycle settings, the allowlist made from them, and the
-- widget profile.
pub mod Accelerator
pub mod Settings
pub mod Allowlist
pub mod Widgets
