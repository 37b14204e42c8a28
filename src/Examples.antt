-- ===== src/Examples.antt =====
-- The theorems at concrete inputs.
mod Data
mod Runs
mod Runtime
mod Session
mod Parts
mod Desktop
mod Answers
mod Hyprland
mod Overlay
