-- ===== src/Hybrid.antt =====
-- The hybrid library: a user thread is of the type one-one or of the type many-many.
pub mod World
pub mod Control
pub mod Descr
mod Examples
pub mod Facts
pub mod Ready
pub mod Sched
pub mod Signal
pub mod Spin
pub mod Join
pub mod Pool
pub mod Main
