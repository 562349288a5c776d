-- ===== src/Examples.antt =====
-- examples/: the bounded buffers that the example programs derive from the monitor, and the local
-- ones over the standard library.
pub mod Ring
pub mod Queue
pub mod Entry
pub mod Members
pub mod Programs
pub mod Shared
pub mod Main
