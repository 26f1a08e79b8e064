-- ===== src/Reconnector.antt =====
-- krypton/reconnector.h and reconnector.cc: the state machine that keeps a session up.
pub mod World
pub mod Timers
pub mod Handlers
pub mod Snooze
pub mod Invariant
pub mod KillSwitch
pub mod Snoozing
pub mod Armed
