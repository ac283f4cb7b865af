-- ===== src/Camera/Flash/Cancel.antt =====
-- `setFlashStep(FLASH_STEP_CANCEL)` against the frames that follow it.
use android_hardware_samsung.Common.{◌≡◌, true, false, List, [], ◌∷◌, arith}
use android_hardware_samsung.Common.Int.{negsuc}
use android_hardware_samsung.Camera.Shot.{AeFlashMode, LampMode, Shot}
use android_hardware_samsung.Camera.Flash.State.{Flash, Status, Step, is_touch}
use android_hardware_samsung.Camera.Flash.Before.{before_step, before_cancel, func_3a_before}
use android_hardware_samsung.Camera.Flash.After.{func_3a_after}
use android_hardware_samsung.Camera.Flash.Setters.{set_flash_step}

-- Frames that were under way when the cancel came: only the callback after the 3A block runs.
unfoldable pub finish : Flash → List Shot → Flash
finish s [] = s
finish s (shot ∷ shots) = finish (func_3a_after s shot) shots

record IsPending (s : Flash) : Type 0 where
  step : s.flash_step ≡ Step.cancel
  asked : s.check_flash_step_cancel ≡ true
  capture : s.is_need_capture_flash ≡ true
  no_touch : is_touch s.flash_trigger ≡ false

set_cancel-IsPending :
    (s : Flash) → is_touch s.flash_trigger ≡ false → IsPending (set_flash_step Step.cancel s)
unfolding set_flash_step
set_cancel-IsPending s h = ground arith

after-IsPending : (s : Flash) (shot : Shot) → IsPending s → IsPending (func_3a_after s shot)
unfolding func_3a_after
after-IsPending s shot h = ground arith

finish-IsPending : (s : Flash) (shots : List Shot) → IsPending s → IsPending (finish s shots)
unfolding finish
finish-IsPending s [] h = h
finish-IsPending s (shot ∷ shots) h =
    finish-IsPending (func_3a_after s shot) shots (after-IsPending s shot h)

-- The flash is off, and nothing of the sequence is left.
pub record IsCancelled (sent : Shot) (s : Flash) : Type 0 where
  pub told : sent.ctl.ae_flash_mode ≡ AeFlashMode.cancel
  pub dark : sent.ctl.flash_mode ≡ LampMode.off
  pub no_time : sent.ctl.firing_time ≡ 0
  pub no_power : sent.ctl.firing_power ≡ 0
  pub step : s.flash_step ≡ Step.off
  pub status : s.flash_status ≡ Status.off
  pub not_needed : s.is_need_flash ≡ false
  pub not_waiting : s.waiting_count ≡ negsuc 0
  pub no_error : s.flash_step_error_count ≡ negsuc 0
  pub no_capture : s.is_capture ≡ false
  pub done : s.check_flash_step_cancel ≡ false

pending-IsCancelled :
    (s : Flash) (sent done : Shot)
    → IsPending s
    → IsCancelled (func_3a_before s sent).1 (func_3a_after (func_3a_before s sent).0 done)
unfolding func_3a_before before_step before_cancel func_3a_after
pending-IsCancelled s sent done h = ground arith

-- With no touch trigger, a cancel is not lost to the frames that were under way: whatever they
-- report, the next frame that is sent tells the firmware to cancel and to keep the lamp dark, and
-- when it comes back step and status are OFF, no flash is needed, waited for or captured, and
-- the request is used up.
pub cancel_takes_effect :
    (s : Flash) (under_way : List Shot) (sent done : Shot)
    → is_touch s.flash_trigger ≡ false
    → let t = finish (set_flash_step Step.cancel s) under_way in
      IsCancelled (func_3a_before t sent).1 (func_3a_after (func_3a_before t sent).0 done)
cancel_takes_effect s under_way sent done h =
    pending-IsCancelled (finish (set_flash_step Step.cancel s) under_way) sent done
      (finish-IsPending (set_flash_step Step.cancel s) under_way (set_cancel-IsPending s h))
