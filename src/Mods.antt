-- ===== src/Mods.antt =====
-- The modules under mods/, which the three libraries share.
pub mod Utils
pub mod List
pub mod Lock
pub mod Timer
pub mod Stack
pub mod Sig
