-- ===== src/Examples.antt =====
-- The theorems applied at concrete inputs, and runs of the definitions: the password of a user goes
-- through the daemon and the guest, files and buffers are small.
pub mod Data
mod Daemon
mod Serving
mod Guest
mod Quoting
mod Tools
mod Events
mod Folders
mod Pump
mod Screens
mod Starting
