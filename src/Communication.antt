-- ===== src/Communication.antt =====
-- communication/: packets, the Lamport clock, the two MPI communicators and the manager.
pub mod Packet
pub mod Clock
pub mod Simple
pub mod Optimized
pub mod Manager
pub mod Tagged
