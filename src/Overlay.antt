-- ===== src/Overlay.antt =====
-- The overlay's small state machines: what is shown of the session's time, the deadlines of its
-- work, and the channel that hands it the latest state.
pub mod SessionClock
pub mod Scheduler
pub mod Latest
