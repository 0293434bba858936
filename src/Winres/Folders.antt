-- ===== src/Winres/Folders.antt =====
-- `patchRegPath` and `patchUserPaths` of core/modules/run-virt/winres/src/winres.c: the user's
-- folders are moved to the home drive by entries of the registry.
pub mod Targets
pub mod Patch
pub mod Choice
pub mod Garbage
pub mod Twice
pub mod Untouched
pub mod Shortcut
