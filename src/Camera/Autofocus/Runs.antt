-- ===== src/Camera/Autofocus/Runs.antt =====
-- Frames of a focus run: the callback before the 3A block, then the one after it.
use android_hardware_samsung.Common.{
  ℕ, ◌+◌, ◌-◌, ◌≤◌, ◌≡◌, ◌≢◌, ◌⊎◌, ◌↔◌, Bool, true, false, none, List, [], ◌∷◌, length, refl, arith,
}
use android_hardware_samsung.Camera.Shot.{Shot}
use android_hardware_samsung.Camera.Autofocus.State.{Mode, Step, Autofocus}
use android_hardware_samsung.Camera.Autofocus.Frames.{
  mode_to_af_mode, before_request, before_start, before_scanning, before_step, func_3a_before,
  func_3a_after,
}
use android_hardware_samsung.Camera.Autofocus.Setters.{
  is_listed, start_autofocus, set_autofocus_mode,
}

unfoldable pub frame : Autofocus → Shot × Shot → Autofocus
frame s (sent, done) = func_3a_after (func_3a_before s sent).0 done

unfoldable pub frames : Autofocus → List (Shot × Shot) → Autofocus
frames s [] = s
frames s (f ∷ fs) = frames (frame s f) fs

-- Frames left until the firmware is asked to focus.
abbrev pub request_left : Step → ℕ → ℕ
request_left Step.request count = 2 + (4 - count)
request_left Step.start count = 1
request_left _ count = 0

-- The steps of a run in which the firmware focuses.
abbrev pub is_run : Step → Bool
is_run Step.start_scanning = true
is_run Step.scanning = true
is_run Step.done = true
is_run _ = false

abbrev pub is_begun : Step → Bool
is_begun Step.request = true
is_begun Step.start = true
is_begun step = is_run step

-- A run that was started in a mode that the firmware has.
record IsRun (mode : Mode) (s : Autofocus) : Type 0 where
  mode_kept : s.auto_focus_mode ≡ mode
  begun : is_begun s.autofocus_step ≡ true

frame-IsRun :
    (mode : Mode) (s : Autofocus) (f : Shot × Shot)
    → is_listed mode ≡ true
    → mode ≢ Mode.fixed
    → IsRun mode s
    → IsRun mode (frame s f)
      × (request_left (frame s f).autofocus_step (frame s f).step_request_count
          ≤ request_left s.autofocus_step s.step_request_count - 1)
unfolding frame func_3a_before func_3a_after before_step before_request before_start before_scanning
    mode_to_af_mode
frame-IsRun mode s (sent, done) l f h = ground arith

frames-IsRun :
    (mode : Mode) (fs : List (Shot × Shot)) (s : Autofocus)
    → is_listed mode ≡ true
    → mode ≢ Mode.fixed
    → IsRun mode s
    → request_left s.autofocus_step s.step_request_count ≤ length fs
    → IsRun mode (frames s fs)
      × (request_left (frames s fs).autofocus_step (frames s fs).step_request_count ≡ 0)
unfolding frames
frames-IsRun mode [] s l f h n = (h, omega arith)
frames-IsRun mode (x ∷ fs) s l f h n =
    let (h', n') = frame-IsRun mode s x l f h in
    frames-IsRun mode fs (frame s x) l f h' (omega arith)

left_zero :
    (at : Step) (count : ℕ) → is_begun at ≡ true → request_left at count ≡ 0 → is_run at ≡ true
left_zero Step.base count b e = cc
left_zero at count b e = ground arith

-- `startAutofocus` after `setAutofocusMode` with a mode that it lists, AUTOFOCUS_MODE_FIXED apart:
-- after any 6 frames or more, whatever the firmware reports, the focus run is on (its step is
-- START_SCANNING, SCANNING or DONE), in that mode.
pub start_autofocus_runs :
    (mode : Mode) (s : Autofocus) (fs : List (Shot × Shot))
    → is_listed mode ≡ true
    → mode ≢ Mode.fixed
    → 6 ≤ length fs
    → let t = frames (start_autofocus (set_autofocus_mode mode s).0) fs in
      (t.auto_focus_mode ≡ mode) × (is_run t.autofocus_step ≡ true)
unfolding start_autofocus set_autofocus_mode
start_autofocus_runs mode s fs l f n =
    let t = start_autofocus (set_autofocus_mode mode s).0 in
    let (h, e) = frames-IsRun mode fs t l f (ground arith) (omega arith) in
    (h.mode_kept, left_zero (frames t fs).autofocus_step (frames t fs).step_request_count h.begun e)

-- A run in AUTOFOCUS_MODE_FIXED.
record IsFixed (s : Autofocus) : Type 0 where
  mode_kept : s.auto_focus_mode ≡ Mode.fixed
  step :
      (s.autofocus_step ≡ Step.request)
      ⊎ ((s.autofocus_step ≡ Step.start) ⊎ (s.autofocus_step ≡ Step.stop))

frame-IsFixed :
    (s : Autofocus) (f : Shot × Shot)
    → IsFixed s
    → IsFixed (frame s f)
      × (request_left (frame s f).autofocus_step (frame s f).step_request_count
          ≤ request_left s.autofocus_step s.step_request_count - 1)
unfolding frame func_3a_before func_3a_after before_step before_request before_start mode_to_af_mode
frame-IsFixed s (sent, done) h = ground arith

frames-IsFixed :
    (fs : List (Shot × Shot)) (s : Autofocus)
    → IsFixed s
    → request_left s.autofocus_step s.step_request_count ≤ length fs
    → IsFixed (frames s fs)
      × (request_left (frames s fs).autofocus_step (frames s fs).step_request_count ≡ 0)
unfolding frames
frames-IsFixed [] s h n = (h, omega arith)
frames-IsFixed (x ∷ fs) s h n =
    let (h', n') = frame-IsFixed s x h in frames-IsFixed fs (frame s x) h' (omega arith)

fixed_left_zero :
    (s : Autofocus)
    → IsFixed s
    → request_left s.autofocus_step s.step_request_count ≡ 0
    → s.autofocus_step ≡ Step.stop
fixed_left_zero s h e = ground arith

-- `setAutofocusMode` accepts AUTOFOCUS_MODE_FIXED, and yet a run that `startAutofocus` starts in
-- it never focuses: after any 6 frames or more it has been stopped.
pub start_autofocus_fixed_stops :
    (s : Autofocus) (fs : List (Shot × Shot))
    → 6 ≤ length fs
    → ((set_autofocus_mode Mode.fixed s).1 ≡ true)
      × ((frames (start_autofocus (set_autofocus_mode Mode.fixed s).0) fs).autofocus_step
          ≡ Step.stop)
unfolding start_autofocus set_autofocus_mode
start_autofocus_fixed_stops s fs n =
    let t = start_autofocus (set_autofocus_mode Mode.fixed s).0 in
    let (h, e) = frames-IsFixed fs t (ground arith) (omega arith) in
    (refl, fixed_left_zero (frames t fs) h e)

trigger_only :
    (s : Autofocus) (shot : Shot)
    → shot.ctl.af_trigger ≢ 1
    → (func_3a_before s shot).1.ctl.af_trigger ≡ 1
    → (s.autofocus_step ≡ Step.start) × (mode_to_af_mode s s.auto_focus_mode ≢ none)
unfolding func_3a_before before_step before_start mode_to_af_mode
trigger_only s shot h e = ground arith

trigger_if :
    (s : Autofocus) (shot : Shot)
    → (s.autofocus_step ≡ Step.start) × (mode_to_af_mode s s.auto_focus_mode ≢ none)
    → (func_3a_before s shot).1.ctl.af_trigger ≡ 1
unfolding func_3a_before before_step before_start mode_to_af_mode
trigger_if s shot h = ground arith

-- On a frame that did not ask for it already, the firmware is asked to start focusing exactly
-- when the step is START and the mode has a counterpart in the firmware.
pub trigger_iff :
    (s : Autofocus) (shot : Shot)
    → shot.ctl.af_trigger ≢ 1
    → ((func_3a_before s shot).1.ctl.af_trigger ≡ 1)
      ↔ ((s.autofocus_step ≡ Step.start) × (mode_to_af_mode s s.auto_focus_mode ≢ none))
trigger_iff s shot h = (trigger_only s shot h, trigger_if s shot)
