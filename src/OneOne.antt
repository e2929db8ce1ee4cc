-- ===== src/OneOne.antt =====
-- The one-one library: every user thread is a kernel thread, so any two may run at the same time.
pub mod Mutex
pub mod Join
pub mod Spin
pub mod World
pub mod Control
pub mod Objects
pub mod Main
