-- ===== src/Exclusion.antt =====
-- The Ricart-Agrawala algorithm: one process, the system of all processes, and what holds in it.
pub mod Algorithm
pub mod System
pub mod Defs
pub mod Network
pub mod Handler
pub mod Alone
pub mod Weights
pub mod Quorum
pub mod Asker
pub mod Replier
pub mod Invariant
pub mod Safety
pub mod Handled
pub mod Restamped
pub mod Released
pub mod Delayed
pub mod Progress
pub mod Settled
