-- ===== src/Camera/Shot.antt =====
-- The part of `struct camera2_shot_ext` (libcamera/fimc-is-metadata.h) that the activities of
-- libcamera/ExynosCameraActivity*.cpp read and write: `shot.ctl` is what is asked of the
-- firmware, `shot.dm` is what it reports.
use android_hardware_samsung.Common.{ℕ, List}

-- `enum flash_mode`
pub data LampMode : Type 0 where
  off single torch best : LampMode

-- `enum aa_aemode`
pub data AeMode : Type 0 where
  off locked center average matrix spot : AeMode

-- `enum aa_ae_flashmode`
pub data AeFlashMode : Type 0 where
  off start cancel on auto capture on_always : AeFlashMode

-- `enum aa_awbmode`
pub data AwbMode : Type 0 where
  off locked wb_auto wb_incandescent wb_fluorescent wb_warm_fluorescent : AwbMode
  wb_daylight wb_cloudy_daylight wb_twilight wb_shade : AwbMode

-- `enum aa_afmode`
pub data AfMode : Type 0 where
  off auto macro continuous_video continuous_picture infinity auto_video auto_face : AfMode
  continuous_picture_face sleep edof : AfMode

-- `enum aa_afstate`, and any value that is none of its enumerators.
pub data AfState : Type 0 where
  inactive passive_scan active_scan acquired_focus failed_focus unlisted : AfState

-- `enum ae_state`
pub data AeState : Type 0 where
  inactive searching converged locked flash_required precapture : AeState

-- `shot.ctl.aa` and `shot.ctl.flash`
pub record Control : Type 0 where
  pub ae_mode : AeMode
  pub ae_flash_mode : AeFlashMode
  pub awb_mode : AwbMode
  pub af_mode : AfMode
  pub af_trigger : ℕ
  pub af_regions : List ℕ
  pub flash_mode : LampMode
  pub firing_time : ℕ
  pub firing_power : ℕ

-- `shot.dm.request`, `shot.dm.aa` and `shot.dm.flash`
pub record Dynamic : Type 0 where
  pub frame_count : ℕ
  pub ae_state : AeState
  pub ae_flash_mode : AeFlashMode
  pub af_state : AfState
  pub decision : ℕ
  pub flash_ready : ℕ
  pub flash_off_ready : ℕ
  pub firing_stable : ℕ

pub record Shot : Type 0 where
  pub ctl : Control
  pub dm : Dynamic
