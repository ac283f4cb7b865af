-- ===== src/Daemon/Registry.antt =====
-- mobicore/daemon/Registry/PrivateRegistry.cpp: the files of containers and trustlets.
pub mod Bytes
pub mod Names
pub mod Disk
pub mod Containers
pub mod Cleanup
pub mod Blob
pub mod Distinct
pub mod Store
pub mod Bounds
pub mod Deletion
pub mod Gone
pub mod Tests
