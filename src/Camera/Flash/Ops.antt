-- ===== src/Camera/Flash/Ops.antt =====
-- All that can happen to an `ExynosCameraActivityFlash`: the callbacks of a frame and the calls
-- of its public methods, in any order.
use android_hardware_samsung.Common.{ℕ, Bool, List, [], ◌∷◌}
use android_hardware_samsung.Common.Int.{ℤ}
use android_hardware_samsung.Camera.Shot.{AeMode, AeFlashMode, AwbMode, LampMode, Shot}
use android_hardware_samsung.Camera.Activity.{Activity, keep}
use android_hardware_samsung.Camera.Flash.State.{Flash, Req, Status, Step, Trigger}
use android_hardware_samsung.Camera.Flash.Before.{func_3a_before}
use android_hardware_samsung.Camera.Flash.After.{func_3a_after}
use android_hardware_samsung.Camera.Flash.Setters.{
  set_flash_mode, set_flash_req, set_flash_status, set_flash_exposure, set_flash_white_balance,
  set_should_checked_rcount, set_should_checked_fcount, set_flash_step, set_flash_triger_path,
  reset_shot_fcount, set_capture_status, set_recording_hint, func_sensor_before, func_sensor_after,
}
use android_hardware_samsung.Camera.Flash.Waits.{force_main_ready}

-- The virtual callbacks of the class.
unfoldable pub flash_activity : Activity Flash
unfolding func_3a_before func_3a_after func_sensor_before func_sensor_after
flash_activity = record {
  func_sensor_before = λ s b. (func_sensor_before b.handle s, b);
  func_sensor_after = λ s b. (func_sensor_after s b.shot, b);
  func_3a_before =
      λ s b. let (s', shot') = func_3a_before s b.shot in (s', record b { shot = shot' });
  func_3a_after = λ s b. (func_3a_after s b.shot, b);
  func_isp_before = keep;
  func_isp_after = keep;
  func_scc_before = keep;
  func_scc_after = keep;
  func_scp_before = keep;
  func_scp_after = keep;
}

pub data Op : Type 0 where
  sensor_before : ℕ → Op
  sensor_after before_3a after_3a : Shot → Op
  flash_mode : LampMode → AeFlashMode → AeMode → Op
  flash_req : Req → Op
  flash_status : Status → Op
  flash_step : Step → Op
  flash_trigger : Trigger → Op
  exposure : AeMode → Op
  white_balance : AwbMode → Op
  rcount fcount : ℤ → Op
  reset_fcount : Op
  capture recording : Bool → Op
  -- `waitMainReady` or `waitMainReadyShortTouch` returns this answer.
  waited : Bool → Op

unfoldable pub perform : Op → Flash → Flash
unfolding func_3a_before func_3a_after func_sensor_before func_sensor_after set_flash_mode
    set_flash_req set_flash_status set_flash_step set_flash_triger_path set_flash_exposure
    set_flash_white_balance set_should_checked_rcount set_should_checked_fcount reset_shot_fcount
    set_capture_status set_recording_hint
perform (sensor_before buf) s = func_sensor_before buf s
perform (sensor_after shot) s = func_sensor_after s shot
perform (before_3a shot) s = (func_3a_before s shot).0
perform (after_3a shot) s = func_3a_after s shot
perform (flash_mode lamp ae_flash ae) s = set_flash_mode lamp ae_flash ae s
perform (flash_req req) s = set_flash_req req s
perform (flash_status status) s = set_flash_status status s
perform (flash_step step) s = set_flash_step step s
perform (flash_trigger trigger) s = set_flash_triger_path trigger s
perform (exposure ae) s = set_flash_exposure ae s
perform (white_balance wb) s = set_flash_white_balance wb s
perform (rcount n) s = set_should_checked_rcount n s
perform (fcount n) s = set_should_checked_fcount n s
perform reset_fcount s = reset_shot_fcount s
perform (capture on) s = set_capture_status on s
perform (recording hint) s = set_recording_hint hint s
perform (waited answer) s = (force_main_ready s answer).0

unfoldable pub run : List Op → Flash → Flash
run [] s = s
run (op ∷ ops) s = run ops (perform op s)
