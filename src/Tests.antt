-- ===== src/Tests.antt =====
-- Concrete inputs for the theorems of the other modules.
mod Exclusion
mod Communication
mod Condition
mod Monitor
mod Examples
mod Util
mod Node
mod Protocol
mod Settled
mod Memory
mod Fresh
