-- ===== src/Session.antt =====
-- The password daemon and the Windows helper together: what one sends the other reads back.
pub mod Cipher
pub mod Hex
pub mod Fields
pub mod Handover
pub mod Ask
pub mod Whole
