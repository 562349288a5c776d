-- ===== src/Util.antt =====
-- util/ and logging/Logger.cpp.
pub mod Hash
pub mod Print
pub mod Log
pub mod Command
pub mod Debugger
