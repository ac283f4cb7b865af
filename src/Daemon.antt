-- ===== src/Daemon.antt =====
-- mobicore/daemon: the daemon between the clients and the secure world, and its client libraries.
pub mod NotificationQueue
pub mod Session
pub mod Device
pub mod Driver
pub mod Registry
pub mod Client
pub mod RegistryClient
pub mod Netlink
