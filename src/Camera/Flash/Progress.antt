-- ===== src/Camera/Flash/Progress.antt =====
-- Frames of a flash capture: the callback before the 3A block, then the one after it.
use android_hardware_samsung.Common.{
  ℕ, ◌+◌, ◌-◌, ◌≤◌, ◌≡◌, ◌≢◌, ◌⊎◌, Bool, true, false, List, [], ◌∷◌, length, arith,
}
use android_hardware_samsung.Camera.Shot.{AeState, Shot}
use android_hardware_samsung.Camera.Flash.State.{Flash, Req, Status, Step, is_touch}
use android_hardware_samsung.Camera.Flash.Before.{
  flash_sequence, count_step_error, before_on, before_required, before_auto, before_req,
  before_step, func_3a_before,
}
use android_hardware_samsung.Camera.Flash.After.{func_3a_after}

-- One frame: the metadata sent with it, and the metadata that came back.
unfoldable pub frame : Flash → Shot × Shot → Flash
frame s (sent, done) = func_3a_after (func_3a_before s sent).0 done

unfoldable pub frames : Flash → List (Shot × Shot) → Flash
frames s [] = s
frames s (f ∷ fs) = frames (frame s f) fs

-- The flash sequence runs: the request is ON, or it is AUTO with the AE state held at
-- FLASH_REQUIRED by a capture.
abbrev pub IsRunning : Flash → Type 0
IsRunning s =
    (s.flash_req ≡ Req.on)
    ⊎ ((s.flash_req ≡ Req.auto) × (s.ae_state ≡ AeState.flash_required) × (s.is_capture ≡ true))

-- The status that the callback before a frame leaves.
abbrev advance : Status → Step → Status
advance Status.off step = Status.pre_ready
advance Status.pre_check step = Status.pre_ready
advance Status.pre_ready Step.pre_start = Status.pre_on
advance Status.main_ready Step.main_start = Status.main_on
advance Status.main_done step = Status.off
advance status step = status

record Advanced (s t : Flash) : Type 0 where
  status : t.flash_status ≡ advance s.flash_status s.flash_step
  step : t.flash_step ≡ s.flash_step
  req : t.flash_req ≡ s.flash_req
  trigger : t.flash_trigger ≡ s.flash_trigger
  timeout : t.timeout_count ≡ s.timeout_count
  waits : t.main_wait_count ≡ s.main_wait_count
  ae : t.ae_state ≡ s.ae_state
  capture : t.is_capture ≡ s.is_capture

func_3a_before-Advanced :
    (s : Flash) (shot : Shot)
    → IsRunning s
    → s.flash_step ≢ Step.cancel
    → Advanced s (func_3a_before s shot).0
unfolding func_3a_before before_step before_req before_on before_auto before_required flash_sequence
    count_step_error
func_3a_before-Advanced s shot h c = ground arith

abbrev pub is_pre_phase : Status → Bool
is_pre_phase Status.off = true
is_pre_phase Status.pre_check = true
is_pre_phase Status.pre_ready = true
is_pre_phase Status.pre_on = true
is_pre_phase Status.pre_ae_done = true
is_pre_phase Status.pre_af = true
is_pre_phase Status.pre_done = true
is_pre_phase Status.main_ready = true
is_pre_phase _ = false

-- A pre-flash that has been started, and that neither a touch nor a cancel disturbs.
pub record IsPreFlash (s : Flash) : Type 0 where
  pub running : IsRunning s
  pub started : s.flash_step ≡ Step.pre_start
  pub no_touch : is_touch s.flash_trigger ≡ false
  pub counted : s.timeout_count ≤ 61
  pub phase : is_pre_phase s.flash_status ≡ true

-- Frames that the pre-flash can still take.
abbrev pub pre_left : Status → ℕ → ℕ
pre_left Status.off t = 189
pre_left Status.pre_check t = 189
pre_left Status.pre_ready t = 188
pre_left Status.pre_on t = 125 + (62 - t)
pre_left Status.pre_ae_done t = 125
pre_left Status.pre_af t = 62 + (62 - t)
pre_left Status.pre_done t = 62 - t
pre_left _ t = 0

after-IsPreFlash :
    (s : Flash) (t : Flash) (shot : Shot)
    → IsPreFlash s
    → Advanced s t
    → IsPreFlash (func_3a_after t shot)
      × (pre_left (func_3a_after t shot).flash_status (func_3a_after t shot).timeout_count
          ≤ pre_left s.flash_status s.timeout_count - 1)
unfolding func_3a_after
after-IsPreFlash s t shot h a = ground arith

pre_frame :
    (s : Flash) (f : Shot × Shot)
    → IsPreFlash s
    → IsPreFlash (frame s f)
      × (pre_left (frame s f).flash_status (frame s f).timeout_count
          ≤ pre_left s.flash_status s.timeout_count - 1)
unfolding frame
pre_frame s (sent, done) h =
    after-IsPreFlash s (func_3a_before s sent).0 done h
      (func_3a_before-Advanced s sent h.running (ground arith))

pre_frames :
    (fs : List (Shot × Shot)) (s : Flash)
    → IsPreFlash s
    → pre_left s.flash_status s.timeout_count ≤ length fs
    → IsPreFlash (frames s fs)
      × (pre_left (frames s fs).flash_status (frames s fs).timeout_count ≡ 0)
unfolding frames
pre_frames [] s h l = (h, omega arith)
pre_frames (f ∷ fs) s h l =
    pre_frames fs (frame s f) (pre_frame s f h).0 (omega (arith, pre_frame s f h))

pre_left_zero :
    (s : Flash)
    → IsPreFlash s
    → pre_left s.flash_status s.timeout_count ≡ 0
    → s.flash_status ≡ Status.main_ready
pre_left_zero s h e = ground arith

pre_left_le : (status : Status) (t : ℕ) → pre_left status t ≤ 189
pre_left_le Status.off t = omega arith
pre_left_le status t = omega arith

-- A pre-flash that has been started, with a request for flash (ON, or AUTO while a capture holds
-- the AE state FLASH_REQUIRED), no touch trigger, at most 61 in `m_timeoutCount` and a status from
-- OFF to MAIN_READY of the sequence, has reached
-- FLASH_STATUS_MAIN_READY after any 189 frames or more, whatever the firmware reports in them.
pub frames_main_ready :
    (s : Flash) (fs : List (Shot × Shot))
    → IsPreFlash s
    → 189 ≤ length fs
    → (frames s fs).flash_status ≡ Status.main_ready
frames_main_ready s fs h l =
    let (k, e) = pre_frames fs s h (omega (arith, pre_left_le s.flash_status s.timeout_count)) in
    pre_left_zero (frames s fs) k e

-- The statuses of the main flash, and the one that waits for the next pre-flash.
abbrev pub is_main_phase : Status → Bool
is_main_phase Status.main_ready = true
is_main_phase Status.main_on = true
is_main_phase Status.main_wait = true
is_main_phase Status.main_done = true
is_main_phase Status.off = true
is_main_phase Status.pre_ready = true
is_main_phase _ = false

-- A main flash that has been started.
pub record IsMainFlash (s : Flash) : Type 0 where
  pub running : IsRunning s
  pub started : s.flash_step ≡ Step.main_start
  pub no_touch : is_touch s.flash_trigger ≡ false
  pub counted : s.timeout_count ≤ 61
  pub waited : s.main_wait_count ≤ 1
  pub phase : is_main_phase s.flash_status ≡ true

abbrev pub main_left : Status → ℕ → ℕ → ℕ
main_left Status.main_ready t w = 67
main_left Status.main_on t w = 4 + (62 - t)
main_left Status.main_wait t w = 5 - w
main_left Status.main_done t w = 2
main_left Status.off t w = 1
main_left _ t w = 0

after-IsMainFlash :
    (s : Flash) (t : Flash) (shot : Shot)
    → IsMainFlash s
    → Advanced s t
    → IsMainFlash (func_3a_after t shot)
      × (main_left
            (func_3a_after t shot).flash_status
            (func_3a_after t shot).timeout_count
            (func_3a_after t shot).main_wait_count
          ≤ main_left s.flash_status s.timeout_count s.main_wait_count - 1)
unfolding func_3a_after
after-IsMainFlash s t shot h a = ground arith

main_frame :
    (s : Flash) (f : Shot × Shot)
    → IsMainFlash s
    → IsMainFlash (frame s f)
      × (main_left (frame s f).flash_status (frame s f).timeout_count (frame s f).main_wait_count
          ≤ main_left s.flash_status s.timeout_count s.main_wait_count - 1)
unfolding frame
main_frame s (sent, done) h =
    after-IsMainFlash s (func_3a_before s sent).0 done h
      (func_3a_before-Advanced s sent h.running (ground arith))

main_frames :
    (fs : List (Shot × Shot)) (s : Flash)
    → IsMainFlash s
    → main_left s.flash_status s.timeout_count s.main_wait_count ≤ length fs
    → IsMainFlash (frames s fs)
      × (main_left
            (frames s fs).flash_status
            (frames s fs).timeout_count
            (frames s fs).main_wait_count
          ≡ 0)
unfolding frames
main_frames [] s h l = (h, omega arith)
main_frames (f ∷ fs) s h l =
    main_frames fs (frame s f) (main_frame s f h).0 (omega (arith, main_frame s f h))

main_left_zero :
    (s : Flash)
    → IsMainFlash s
    → main_left s.flash_status s.timeout_count s.main_wait_count ≡ 0
    → s.flash_status ≡ Status.pre_ready
main_left_zero s h e = ground arith

main_left_le : (status : Status) (t w : ℕ) → main_left status t w ≤ 67
main_left_le Status.off t w = omega arith
main_left_le status t w = omega arith

-- A main flash that has been started, with a request for flash (ON, or AUTO while a capture holds
-- the AE state FLASH_REQUIRED), no touch trigger, at most 61 in `m_timeoutCount`, at most 1 in `m_mainWaitCount` and a status from MAIN_READY to MAIN_DONE,
-- OFF or PRE_READY, has ended after any 67 frames or more: the sequence waits at
-- FLASH_STATUS_PRE_READY for the next pre-flash, whatever the firmware reports.
pub frames_main_done :
    (s : Flash) (fs : List (Shot × Shot))
    → IsMainFlash s
    → 67 ≤ length fs
    → (frames s fs).flash_status ≡ Status.pre_ready
frames_main_done s fs h l =
    let (k, e) =
      main_frames fs s h
        (omega (arith, main_left_le s.flash_status s.timeout_count s.main_wait_count)) in
    main_left_zero (frames s fs) k e
