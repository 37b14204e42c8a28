-- ===== src/Config/Widgets.antt =====
-- crates/overcrow-config/src/widgets.rs: the widget profile.
pub mod Profile
pub mod Validation
pub mod Laws
pub use Profile.*
pub use Validation.*
