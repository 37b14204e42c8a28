-- ===== src/Core/Runtime.antt =====
-- crates/overcrow-core/src/runtime.rs: the runtime that ties the observed window, the processes, the
-- settings and the published snapshot together. Each operation runs under the `mutation` lock, so
-- it is one step; `watch` channels are the values that they hold.
pub mod State
pub mod Snapshot
pub mod Metadata
pub mod Operations
pub mod Held
pub mod Start
pub mod Step
