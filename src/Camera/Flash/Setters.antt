-- ===== src/Camera/Flash/Setters.antt =====
-- The requests and the queries of libcamera/ExynosCameraActivityFlash.cpp, and
-- `t_funcSensorBefore` and `t_funcSensorAfter`. A method that answers `true` on every path
-- returns the new state alone.
use android_hardware_samsung.Common.{ℕ, Bool, true, false, not, ◌&&◌, if◌then◌else◌}
use android_hardware_samsung.Common.Int.{ℤ, pos, negsuc, ltb_ℤ, ◌+ℤ◌, ◌-ℤ◌, to_int}
use android_hardware_samsung.Camera.Shot.{AeMode, AeFlashMode, AwbMode, LampMode, Shot}
use android_hardware_samsung.Camera.Flash.State.{
  Flash, Req, Status, Step, Trigger, is_step_off, is_touch,
}

unfoldable pub set_flash_mode : LampMode → AeFlashMode → AeMode → Flash → Flash
set_flash_mode lamp ae_flash ae s = record s {
  flash_mode = lamp;
  ae_flash_mode = ae_flash;
  ae_mode = ae;
}

unfoldable pub set_flash_status : Status → Flash → Flash
set_flash_status status s = record s { flash_status = status }

-- Whether the enumerators of two requests are the same.
abbrev pub same_req : Req → Req → Bool
same_req Req.off Req.off = true
same_req Req.auto Req.auto = true
same_req Req.on Req.on = true
same_req Req.red_eye Req.red_eye = true
same_req Req.torch Req.torch = true
same_req Req.end Req.end = true
same_req _ _ = false

abbrev pub new_req : Req → Flash → Flash
new_req req s =
    let t = record s { flash_req = req; flash_status = Status.off } in
    record t { is_need_capture_flash = if s.is_recording then s.is_need_capture_flash else true }

unfoldable pub set_flash_req : Req → Flash → Flash
set_flash_req req s =
    let t = if same_req s.flash_req req then s else new_req req s in
    record t {
      is_need_flash = if same_req t.flash_req Req.on then true else t.is_need_flash;
      is_need_capture_flash =
          if same_req t.flash_req Req.torch then false else t.is_need_capture_flash;
    }

-- The name promises the status; the code answers `m_aeflashMode`.
unfoldable pub get_flash_status : Flash → AeFlashMode
get_flash_status s = s.ae_flash_mode

unfoldable pub set_flash_exposure : AeMode → Flash → Flash
set_flash_exposure ae s = record s { ae_mode = ae }

unfoldable pub set_flash_white_balance : AwbMode → Flash → Flash
set_flash_white_balance wb s = record s { awb_mode = wb }

unfoldable pub set_should_checked_rcount : ℤ → Flash → Flash
set_should_checked_rcount rcount s = record s { main_capture_rcount = rcount }

unfoldable pub set_should_checked_fcount : ℤ → Flash → Flash
set_should_checked_fcount fcount s = record s { main_capture_fcount = fcount }

abbrev pub is_past_pre : Status → Bool
is_past_pre Status.pre_done = true
is_past_pre Status.main_ready = true
is_past_pre _ = false

-- The `switch` of `setFlashStep`, on a state that has the new step.
unfoldable pub enter_step : Step → Flash → Flash
unfolding set_should_checked_fcount
enter_step Step.off s = record s {
  waiting_count = negsuc 0;
  check_main_capture_fcount = false;
  flash_status = Status.off;
}
enter_step Step.pre_start s = record s {
  ae_wait_max_count = pos 25;
  flash_status =
      if is_past_pre s.flash_status && is_touch s.flash_trigger then Status.off else s.flash_status;
}
enter_step Step.main_start s =
    record (set_should_checked_fcount (s.current_isp_input_fcount +ℤ pos 1) s) {
      waiting_count = pos 15;
      timeout_count = 0;
      check_main_capture_fcount = false;
    }
enter_step Step.main_done s = record s {
  waiting_count = negsuc 0;
  check_main_capture_fcount = false;
}
enter_step Step.cancel s = record s { check_flash_step_cancel = true; is_need_capture_flash = true }
enter_step _ s = s

unfoldable pub set_flash_step : Step → Flash → Flash
unfolding enter_step
set_flash_step step s =
    let t = enter_step step (record s { flash_step = step }) in
    record t {
      flash_step_error_count = if is_step_off step then t.flash_step_error_count else pos 0;
    }

unfoldable pub get_flash_step : Flash → Step
get_flash_step s = s.flash_step

unfoldable pub set_flash_triger_path : Trigger → Flash → Flash
set_flash_triger_path trigger s = record s { flash_trigger = trigger }

unfoldable pub get_flash_triger_path : Flash → Trigger
get_flash_triger_path s = s.flash_trigger

unfoldable pub check_main_capture_rcount : ℤ → Flash → ℤ
check_main_capture_rcount rcount s =
    if ltb_ℤ rcount s.main_capture_rcount
    then pos 1
    else if ltb_ℤ s.main_capture_rcount rcount
    then negsuc 0
    else pos 0

unfoldable pub check_main_capture_fcount : ℤ → Flash → ℤ
check_main_capture_fcount fcount s =
    if ltb_ℤ fcount s.main_capture_fcount then s.main_capture_fcount -ℤ fcount else pos 0

unfoldable pub get_waiting_count : Flash → ℤ
get_waiting_count s = s.waiting_count

unfoldable pub get_need_flash : Flash → Bool
get_need_flash s = s.is_need_flash

unfoldable pub get_need_capture_flash : Flash → Bool
get_need_capture_flash s = if s.is_need_flash then s.is_need_capture_flash else false

unfoldable pub get_shot_fcount : Flash → ℕ
get_shot_fcount s = s.shot_fcount

unfoldable pub reset_shot_fcount : Flash → Flash
reset_shot_fcount s = record s { shot_fcount = 0 }

unfoldable pub set_capture_status : Bool → Flash → Flash
set_capture_status capture s = record s { is_capture = capture }

unfoldable pub set_recording_hint : Bool → Flash → Flash
set_recording_hint hint s = record s { is_recording = hint; is_need_capture_flash = not hint }

-- The handle of the buffer is copied to `m_reqBuf`.
unfoldable pub func_sensor_before : ℕ → Flash → Flash
func_sensor_before buf s = record s { req_buf = buf }

unfoldable pub func_sensor_after : Flash → Shot → Flash
unfolding check_main_capture_fcount
func_sensor_after s shot = record s {
  waiting_count =
      if s.check_main_capture_fcount
      then check_main_capture_fcount (to_int shot.dm.frame_count) s
      else s.waiting_count;
}
