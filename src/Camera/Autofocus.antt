-- ===== src/Camera/Autofocus.antt =====
-- libcamera/ExynosCameraActivityAutofocus.cpp: the focus runs of the camera.
pub mod State
pub mod Frames
pub mod Setters
pub mod Result
pub mod Lock
pub mod Runs
pub mod Answers
pub mod Locking
mod Tests
