-- ===== src/Camera/Flash/State.antt =====
-- The enumerations, the members and the constructor of `ExynosCameraActivityFlash`
-- (libcamera/ExynosCameraActivityFlash.h and .cpp). `m_timeoutCount` and `m_mainWaitCount` are
-- only set to 0 or counted up, so they are natural numbers; the other `int`s are integers.
use android_hardware_samsung.Common.{ℕ, Bool, true, false}
use android_hardware_samsung.Common.Int.{ℤ, pos, negsuc}
use android_hardware_samsung.Camera.Shot.{AeMode, AeFlashMode, AwbMode, AeState, LampMode}

-- `enum FLASH_REQ`
pub data Req : Type 0 where
  off auto on red_eye torch end : Req

-- `enum FLASH_STATUS`
pub data Status : Type 0 where
  off need_flash pre_check pre_ready pre_on pre_ae_done pre_af pre_af_done pre_done : Status
  main_ready main_on main_wait main_done end : Status

-- `enum FLASH_STEP`
pub data Step : Type 0 where
  off pre_start pre_done main_start main_done cancel end : Step

-- `enum FLASH_TRIGGER`
pub data Trigger : Type 0 where
  off touch_display shot_button long_button end : Trigger

-- The value of a status as a C++ enumerator, for `<` between two of them.
abbrev pub status_value : Status → ℕ
status_value Status.off = 0
status_value Status.need_flash = 1
status_value Status.pre_check = 2
status_value Status.pre_ready = 3
status_value Status.pre_on = 4
status_value Status.pre_ae_done = 5
status_value Status.pre_af = 6
status_value Status.pre_af_done = 7
status_value Status.pre_done = 8
status_value Status.main_ready = 9
status_value Status.main_on = 10
status_value Status.main_wait = 11
status_value Status.main_done = 12
status_value Status.end = 13

abbrev pub is_pre_start : Step → Bool
is_pre_start Step.pre_start = true
is_pre_start _ = false

abbrev pub is_step_pre_done : Step → Bool
is_step_pre_done Step.pre_done = true
is_step_pre_done _ = false

abbrev pub is_main_start : Step → Bool
is_main_start Step.main_start = true
is_main_start _ = false

abbrev pub is_cancel : Step → Bool
is_cancel Step.cancel = true
is_cancel _ = false

abbrev pub is_step_off : Step → Bool
is_step_off Step.off = true
is_step_off _ = false

abbrev pub is_touch : Trigger → Bool
is_touch Trigger.touch_display = true
is_touch _ = false

pub record Flash : Type 0 where
  pub is_exclusive_req : Bool
  pub is_activated : Bool
  pub req_num : ℕ
  pub req_status : ℕ
  pub is_need_flash : Bool
  pub flash_trigger_step : ℕ
  pub flash_step_error_count : ℤ
  pub main_capture_rcount : ℤ
  pub check_main_capture_rcount : Bool
  pub main_capture_fcount : ℤ
  pub current_isp_input_fcount : ℤ
  pub check_main_capture_fcount : Bool
  pub waiting_count : ℤ
  pub is_capture : Bool
  pub is_recording : Bool
  pub timeout_count : ℕ
  pub ae_wait_max_count : ℤ
  pub main_wait_count : ℕ
  pub check_flash_step_cancel : Bool
  pub is_need_capture_flash : Bool
  pub flash_mode : LampMode
  pub ae_flash_mode : AeFlashMode
  pub ae_mode : AeMode
  pub awb_mode : AwbMode
  pub ae_state : AeState
  pub flash_status : Status
  pub flash_step : Step
  pub flash_trigger : Trigger
  pub flash_req : Req
  pub req_buf : ℕ
  pub shot_fcount : ℕ
  pub flash_pre_status : Status
  pub ae_pre_state : AeState

-- `FLASH_TIMEOUT_COUNT` and its relatives, in frames.
abbrev pub timeout_limit : ℕ
timeout_limit = 30

abbrev pub af_timeout_limit : ℕ
af_timeout_limit = 40

abbrev pub ae_timeout_limit : ℕ
ae_timeout_limit = 60

abbrev pub main_timeout_limit : ℕ
main_timeout_limit = 15

abbrev pub main_wait_limit : ℕ
main_wait_limit = 2

-- `ExynosCameraActivityFlash()`; `m_reqBuf` is default-constructed, here as buffer 0.
unfoldable pub new : Flash
new = record {
  is_exclusive_req = false;
  is_activated = false;
  req_num = 0x1F;
  req_status = 0;
  is_need_flash = false;
  flash_trigger_step = 0;
  flash_step_error_count = negsuc 0;
  main_capture_rcount = pos 0;
  check_main_capture_rcount = false;
  main_capture_fcount = pos 0;
  current_isp_input_fcount = pos 0;
  check_main_capture_fcount = false;
  waiting_count = negsuc 0;
  is_capture = false;
  is_recording = false;
  timeout_count = 0;
  ae_wait_max_count = pos 0;
  main_wait_count = 0;
  check_flash_step_cancel = false;
  is_need_capture_flash = true;
  flash_mode = LampMode.off;
  ae_flash_mode = AeFlashMode.off;
  ae_mode = AeMode.off;
  awb_mode = AwbMode.off;
  ae_state = AeState.inactive;
  flash_status = Status.off;
  flash_step = Step.off;
  flash_trigger = Trigger.off;
  flash_req = Req.off;
  req_buf = 0;
  shot_fcount = 0;
  flash_pre_status = Status.off;
  ae_pre_state = AeState.inactive;
}
