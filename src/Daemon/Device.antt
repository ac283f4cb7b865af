-- ===== src/Daemon/Device.antt =====
-- mobicore/daemon/Daemon/Device: the sessions that the daemon keeps with the secure world.
pub mod State
pub mod Sessions
pub mod Commands
pub mod Exchange
pub mod Close
pub mod Ownership
pub mod Opening
pub mod Closing
pub mod Mapping
pub mod Teardown
pub mod Delivery
pub mod Registration
pub mod Version
pub mod Scenarios
mod Tests
