-- ===== src/Condition.antt =====
-- algorithms/DistributedConditionVariableAlgorithm.h.
pub mod Algorithm
pub mod Waiters
pub mod Laws
pub mod Notices
pub mod Wait
pub mod System
pub mod Protocol
pub mod Transitions
pub mod Members
pub mod Acts
pub mod Movers
pub mod Handle
pub mod Effects
pub mod Moved
pub mod Steps
pub mod Subscribed
pub mod Notified
