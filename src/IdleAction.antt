-- ===== src/IdleAction.antt =====
-- The two programs that ask the X server how long the user is away, core/modules/idleaction.
pub mod IdleTime
pub mod LockTime
