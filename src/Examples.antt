-- ===== src/Examples.antt =====
-- The theorems at concrete inputs.
pub mod Codes
pub mod Sessions
pub mod Servers
pub mod Wire
pub mod Frames
pub mod Trust
pub mod Machine
