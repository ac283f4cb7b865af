-- ===== src/Camera.antt =====
-- libcamera: the per-frame activities of the camera, its crop rectangles, sizes, frame rates and
-- areas.
pub mod Shot
pub mod Activity
pub mod Flash
pub mod Autofocus
pub mod Crop
pub mod Sizes
pub mod Fps
pub mod Areas
