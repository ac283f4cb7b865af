-- ===== src/Daemon/Driver.antt =====
-- mobicore/daemon/Daemon/MobiCoreDriverDaemon.cpp: the commands of the clients.
pub mod Wire
pub mod State
pub mod Sessions
pub mod Bulk
pub mod Registry
pub mod Dispatch
pub mod Startup
pub mod Answers
pub mod Refusals
pub mod Locks
pub mod Leaks
pub mod Tests
pub mod Peers
