-- ===== src/ManyMany.antt =====
-- many-many/src: the library that maps many user threads to many kernel threads.
pub mod World
pub mod Facts
pub mod Descr
pub mod Pending
pub mod Ready
pub mod Control
pub mod Spin
pub mod Mutex
pub mod Signal
pub mod Sched
mod Examples
pub mod Main
pub mod Dispatch
pub mod Contend
pub mod Pool
