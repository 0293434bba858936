-- ===== src/Winres.antt =====
-- The helper that run-virt starts in Windows guests, core/modules/run-virt/winres/src/winres.c.
pub mod Secret
pub mod Token
pub mod ShareFile
pub mod Quote
pub mod Mount
pub mod Shares
pub mod Scripts
pub mod Folders
pub mod Pump
pub mod Query
pub mod Resolution
pub mod Start
