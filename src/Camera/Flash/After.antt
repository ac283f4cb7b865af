-- ===== src/Camera/Flash/After.antt =====
-- `t_func3AAfter` of libcamera/ExynosCameraActivityFlash.cpp: what the activity learns from the
-- metadata of a finished frame. Logging is left out.
use android_hardware_samsung.Common.{
  ℕ, ◌+◌, ◌-◌, Bool, false, not, ◌&&◌, ◌||◌, ltb, ◌==◌, if◌then◌else◌,
}
use android_hardware_samsung.Common.Int.{negsuc, pred_ℤ}
use android_hardware_samsung.Camera.Shot.{Shot, Dynamic}
use android_hardware_samsung.Camera.Flash.State.{
  Flash, Status, Step, is_cancel, is_step_pre_done, is_touch, timeout_limit, af_timeout_limit,
  ae_timeout_limit, main_timeout_limit, main_wait_limit,
}

-- A timed stage: it is left for `next` when `done` or when the limit is passed, and the frame is
-- counted otherwise.
abbrev pub timed : Bool → ℕ → Status → Flash → Flash
timed done limit next s =
    if done || ltb limit s.timeout_count
    then record s { flash_status = next; timeout_count = 0 }
    else record s { timeout_count = s.timeout_count + 1 }

-- FLASH_STATUS_MAIN_READY
unfoldable pub after_main_ready : Flash → Flash
after_main_ready s =
    if is_touch s.flash_trigger
    then (if ltb timeout_limit s.timeout_count
        then record s {
          flash_step = Step.off;
          flash_status = Status.off;
          is_capture = false;
          waiting_count = negsuc 0;
          check_main_capture_fcount = false;
          timeout_count = 0;
        }
        else record s { timeout_count = s.timeout_count + 1 })
    else s

-- FLASH_STATUS_MAIN_ON
unfoldable pub after_main_on : Flash → Dynamic → Flash
after_main_on s dm =
    if dm.flash_off_ready == 2 || (dm.firing_stable == 1 || ltb main_timeout_limit s.timeout_count)
    then record s {
      shot_fcount =
          if not (dm.flash_off_ready == 2) && dm.firing_stable == 1
          then dm.frame_count
          else s.shot_fcount;
      flash_status = Status.main_done;
      timeout_count = 0;
      main_wait_count = 0;
      waiting_count = pred_ℤ s.waiting_count;
    }
    else record s { timeout_count = s.timeout_count + 1 }

-- FLASH_STATUS_MAIN_WAIT
unfoldable pub after_main_wait : Flash → Flash
after_main_wait s =
    if ltb s.main_wait_count (main_wait_limit - 1)
    then record s { main_wait_count = s.main_wait_count + 1 }
    else record s { main_wait_count = 0; waiting_count = negsuc 0; flash_status = Status.main_done }

-- The `else if` ladder over `m_flashStatus`.
unfoldable pub after_status : Status → Flash → Dynamic → Flash
unfolding after_main_ready after_main_on after_main_wait
after_status Status.pre_check s dm = timed (dm.decision == 2) timeout_limit Status.pre_ready s
after_status Status.pre_on s dm = timed (dm.flash_ready == 1) ae_timeout_limit Status.pre_ae_done s
after_status Status.pre_ae_done s dm = record s { flash_status = Status.pre_af }
after_status Status.pre_af s dm =
    timed (is_step_pre_done s.flash_step) af_timeout_limit Status.pre_done s
after_status Status.pre_done s dm = timed (dm.flash_ready == 2) timeout_limit Status.main_ready s
after_status Status.main_ready s dm = after_main_ready s
after_status Status.main_on s dm = after_main_on s dm
after_status Status.main_wait s dm = after_main_wait s
after_status _ s dm = s

-- The first statement: outside a capture the firmware's AE state is taken over.
abbrev pub take_ae_state : Flash → Dynamic → Flash
take_ae_state s dm = record s { ae_state = if s.is_capture then s.ae_state else dm.ae_state }

unfoldable pub func_3a_after : Flash → Shot → Flash
unfolding after_status
func_3a_after s shot =
    let t = take_ae_state s shot.dm in
    if is_cancel s.flash_step && not s.check_flash_step_cancel
    then record t { flash_step = Step.off; flash_status = Status.off }
    else record (after_status t.flash_status t shot.dm) { ae_flash_mode = shot.dm.ae_flash_mode }
