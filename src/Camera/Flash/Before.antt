-- ===== src/Camera/Flash/Before.antt =====
-- `t_func3ABefore` of libcamera/ExynosCameraActivityFlash.cpp: what the activity asks of the
-- firmware for the next frame. Logging is left out.
use android_hardware_samsung.Common.{ℕ, ◌*◌, true, false, if◌then◌else◌}
use android_hardware_samsung.Common.Int.{pos, negsuc, pred_ℤ, ltb_ℤ, ◌+ℤ◌, to_int}
use android_hardware_samsung.Camera.Shot.{AeMode, AeFlashMode, AwbMode, AeState, LampMode, Shot}
use android_hardware_samsung.Camera.Flash.State.{
  Flash, Req, Status, Step, is_pre_start, is_main_start, is_touch,
}

-- The state and the metadata of the frame, as a callback leaves them.
abbrev pub Frame : Type 0
Frame = Flash × Shot

-- The four writes to `ctl.aa.aeflashMode` and `ctl.flash`.
abbrev pub ask_lamp : AeFlashMode → LampMode → ℕ → ℕ → Shot → Shot
ask_lamp ae lamp time power shot = record shot {
  ctl = record (shot.ctl) {
    ae_flash_mode = ae;
    flash_mode = lamp;
    firing_time = time;
    firing_power = power;
  };
}

abbrev pub ask_dark : AeFlashMode → Shot → Shot
ask_dark ae = ask_lamp ae LampMode.off 0 0

abbrev pub ask_main : Shot → Shot
ask_main = ask_lamp AeFlashMode.capture LampMode.single (500 * 1000) 63

abbrev pub ask_pre : Shot → Shot
ask_pre = ask_lamp AeFlashMode.on LampMode.torch (10 * 1000 * 1000) 63

abbrev pub ask_ae : AeMode → Shot → Shot
ask_ae m shot = record shot { ctl = record (shot.ctl) { ae_mode = m } }

abbrev pub ask_awb : AwbMode → Shot → Shot
ask_awb m shot = record shot { ctl = record (shot.ctl) { awb_mode = m } }

-- The `else if` ladder over `m_flashStatus` behind its first branch. It stands twice in the
-- source, word for word: for FLASH_REQ_ON, and for FLASH_REQ_AUTO once flash is required.
unfoldable pub flash_sequence : Status → Flash → Shot → Frame
flash_sequence Status.pre_ready s shot =
    if is_pre_start s.flash_step
    then (
      record s { flash_status = Status.pre_on; ae_wait_max_count = pred_ℤ s.ae_wait_max_count },
      ask_awb AwbMode.locked (ask_ae s.ae_mode (ask_dark AeFlashMode.start shot)),
    )
    else (s, shot)
flash_sequence Status.pre_on s shot = (
  record s { flash_status = Status.pre_on; ae_wait_max_count = pred_ℤ s.ae_wait_max_count },
  ask_ae s.ae_mode (ask_pre shot),
)
flash_sequence Status.pre_ae_done s shot = (
  record s { flash_status = Status.pre_ae_done; ae_wait_max_count = pos 0 },
  ask_awb AwbMode.locked (ask_ae AeMode.locked (ask_pre shot)),
)
flash_sequence Status.pre_af s shot = (
  record s { flash_status = Status.pre_af; ae_wait_max_count = pos 0 },
  ask_awb AwbMode.locked (ask_ae AeMode.locked (ask_pre shot)),
)
flash_sequence Status.pre_done s shot = (
  record s { waiting_count = negsuc 0; ae_wait_max_count = pos 0 },
  ask_dark AeFlashMode.auto
      (if is_touch s.flash_trigger then ask_awb s.awb_mode (ask_ae s.ae_mode shot) else shot),
)
flash_sequence Status.main_ready s shot =
    if is_main_start s.flash_step
    then (
      record s {
        flash_status = Status.main_on;
        waiting_count = pred_ℤ s.waiting_count;
        ae_wait_max_count = pos 0;
      },
      ask_main shot,
    )
    else (s, shot)
flash_sequence Status.main_on s shot = (
  record s {
    flash_status = Status.main_on;
    waiting_count = pred_ℤ s.waiting_count;
    ae_wait_max_count = pos 0;
  },
  ask_main shot,
)
flash_sequence Status.main_wait s shot = (
  record s {
    flash_status = Status.main_wait;
    waiting_count = pred_ℤ s.waiting_count;
    ae_wait_max_count = pos 0;
  },
  ask_main shot,
)
flash_sequence Status.main_done s shot = (
  record s { flash_status = Status.off; waiting_count = negsuc 0; ae_wait_max_count = pos 0 },
  ask_dark AeFlashMode.off shot,
)
flash_sequence _ s shot = (s, shot)

-- `if (0 < m_flashStepErrorCount) m_flashStepErrorCount++`, which the `goto done`s skip.
unfoldable pub count_step_error : Frame → Frame
count_step_error (s, shot) = (
  record s {
    flash_step_error_count =
        if ltb_ℤ (pos 0) s.flash_step_error_count
        then s.flash_step_error_count +ℤ pos 1
        else s.flash_step_error_count;
  },
  shot,
)

-- FLASH_REQ_ON
unfoldable pub before_on : Status → Flash → Shot → Frame
before_on Status.off s shot =
    (record s { flash_status = Status.pre_ready }, ask_dark AeFlashMode.off shot)
before_on Status.pre_check s shot =
    (record s { flash_status = Status.pre_ready }, ask_dark AeFlashMode.off shot)
before_on status s shot = flash_sequence status s shot

-- FLASH_REQ_AUTO, flash required
unfoldable pub before_required : Status → Flash → Shot → Frame
before_required Status.off s shot =
    (record s { flash_status = Status.pre_ready }, ask_ae s.ae_mode (ask_dark AeFlashMode.off shot))
before_required Status.pre_check s shot =
    (record s { flash_status = Status.pre_ready }, ask_ae s.ae_mode (ask_dark AeFlashMode.off shot))
before_required status s shot = flash_sequence status s shot

-- FLASH_REQ_AUTO, no flash needed
unfoldable pub before_not_needed : Flash → Shot → Frame
before_not_needed s shot = (
  record s {
    is_need_flash = false;
    flash_status = Status.off;
    flash_step = Step.off;
    check_main_capture_rcount = false;
    check_main_capture_fcount = false;
    waiting_count = negsuc 0;
  },
  ask_dark AeFlashMode.off shot,
)

unfoldable pub before_auto : AeState → Flash → Shot → Frame
before_auto AeState.inactive s shot = before_not_needed s shot
before_auto AeState.converged s shot = before_not_needed s shot
before_auto AeState.flash_required s shot =
    count_step_error (before_required s.flash_status (record s { is_need_flash = true }) shot)
before_auto _ s shot = count_step_error (s, shot)

unfoldable pub before_req : Req → Flash → Shot → Frame
before_req Req.off s shot = (
  record s {
    is_need_flash = false;
    waiting_count = negsuc 0;
    flash_step_error_count = negsuc 0;
    flash_step = Step.off;
    check_main_capture_rcount = false;
    check_main_capture_fcount = false;
  },
  ask_dark AeFlashMode.off shot,
)
before_req Req.torch s shot = (
  record s { is_need_flash = true; waiting_count = negsuc 0 },
  ask_lamp AeFlashMode.on_always LampMode.torch (50 * 1000) 63 shot,
)
before_req Req.on s shot =
    count_step_error (before_on s.flash_status (record s { is_need_flash = true }) shot)
before_req Req.auto s shot = before_auto s.ae_state s shot
before_req _ s shot = count_step_error (s, shot)

unfoldable pub before_cancel : Flash → Shot → Frame
before_cancel s shot = (
  record s {
    is_need_flash = false;
    waiting_count = negsuc 0;
    flash_step_error_count = negsuc 0;
    check_main_capture_rcount = false;
    check_main_capture_fcount = false;
    check_flash_step_cancel = false;
    is_capture = false;
  },
  ask_awb s.awb_mode (ask_ae s.ae_mode (ask_dark AeFlashMode.cancel shot)),
)

unfoldable pub before_step : Step → Flash → Shot → Frame
before_step Step.cancel s shot = before_cancel s shot
before_step _ s shot = before_req s.flash_req s shot

-- `m_flashPreStatus` and `m_aePreState` are written when either differs, so in any case they
-- end up equal to the current values.
unfoldable pub func_3a_before : Flash → Shot → Frame
func_3a_before s shot =
    before_step s.flash_step
      (record s {
        current_isp_input_fcount = to_int shot.dm.frame_count;
        flash_pre_status = s.flash_status;
        ae_pre_state = s.ae_state;
      })
      shot
