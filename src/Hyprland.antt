-- ===== src/Hyprland.antt =====
-- crates/overcrow-hyprland/src: the bridge between Hyprland and the core.
pub mod Model
pub mod Reconcile
pub mod Geometry
pub mod Focus
pub mod Shortcut
pub mod Events
pub mod Bindings
pub mod Diagnostics
pub mod Bridge
pub mod Loop
