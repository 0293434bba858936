-- ===== src/Brightness.antt =====
-- The daemon for brightness keys, core/modules/slx-brightness/src/main.c.
pub mod Files
pub mod Keys
pub mod Events
pub mod Devices
pub mod Main
