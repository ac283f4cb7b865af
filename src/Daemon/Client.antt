-- ===== src/Daemon/Client.antt =====
-- The client library of the daemon, mobicore/daemon/ClientLib.
pub mod Codes
pub mod State
pub mod Wire
pub mod Opening
pub mod Closing
pub mod Bulk
pub mod Waiting
pub mod Memory
pub mod Calls
pub mod Counts
pub mod Places
pub mod Pointers
pub mod Distinct
pub mod Covered
pub mod Checks
pub mod Covers
pub mod Invariant
pub mod Runs
pub mod Drained
pub mod Ends
pub mod Messages
pub mod Link
pub mod Mapping
pub mod Unmapping
pub mod Openings
pub mod Tests
