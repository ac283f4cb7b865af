-- ===== src/Camera/Flash.antt =====
-- libcamera/ExynosCameraActivityFlash.cpp: the pre-flash and main-flash sequence of a capture.
pub mod State
pub mod Before
pub mod After
pub mod Setters
pub mod Waits
pub mod Ops
pub mod Bounds
pub mod Progress
pub mod Cancel
pub mod Lamp
pub mod Timeouts
pub mod AeTimeout
mod Tests
