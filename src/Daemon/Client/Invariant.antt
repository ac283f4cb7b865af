-- ===== src/Daemon/Client/Invariant.antt =====
-- The calls of mobicore/daemon/ClientLib/ClientLib.cpp and what they keep covered.
pub mod Closing
pub mod Memory
pub mod Buffers
pub mod Waiting
pub mod Opening
pub mod Sessions
