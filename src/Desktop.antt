-- ===== src/Desktop.antt =====
-- apps/controlis-app/src-tauri/src/commands: the commands of the window.
pub mod Target
pub mod Resolve
pub mod Connect
pub mod Trust
pub mod First
pub mod Slot
pub mod Host
