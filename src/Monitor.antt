-- ===== src/Monitor.antt =====
-- distributed/: the mutex, the condition variable and the monitor that users derive from.
pub mod Mutex
pub mod Sync
pub mod Node
pub mod Fresh
pub mod Memory
