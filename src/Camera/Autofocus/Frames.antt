-- ===== src/Camera/Autofocus/Frames.antt =====
-- `t_func3ABefore` and `t_func3AAfter` of libcamera/ExynosCameraActivityAutofocus.cpp, with
-- `getCurrentState` and `m_AUTOFOCUS_MODE2AA_AFMODE`. Logging is left out.
use android_hardware_samsung.Common.{
  ℕ, ◌+◌, Bool, true, false, ◌||◌, Option, some, none, List, [], ◌∷◌, ltb, if◌then◌else◌,
}
use android_hardware_samsung.Common.Int.{to_int, to_uint}
use android_hardware_samsung.Camera.Shot.{AfMode, AfState, Shot}
use android_hardware_samsung.Camera.Autofocus.State.{
  Mode, MacroPosition, State, Step, Autofocus, fail_limit, request_limit,
}

abbrev pub reported_state : AfState → State
reported_state AfState.passive_scan = State.scanning
reported_state AfState.active_scan = State.scanning
reported_state AfState.acquired_focus = State.success
reported_state AfState.failed_focus = State.fail
reported_state _ = State.none

-- `getCurrentState`: the state, which is also written to `m_afState`.
unfoldable pub get_current_state : Autofocus → State
get_current_state s = if s.flag_autofocus_start then reported_state s.aa_af_state else s.af_state

abbrev pub note_state : Autofocus → Autofocus
note_state s = record s { af_state = get_current_state s }

-- `m_AUTOFOCUS_MODE2AA_AFMODE`; `none` is -1.
unfoldable pub mode_to_af_mode : Autofocus → Mode → Option AfMode
mode_to_af_mode s Mode.auto = some (
    if s.recording_hint
    then AfMode.auto_video
    else if s.flag_face_detection
    then AfMode.auto_face
    else AfMode.auto)
mode_to_af_mode s Mode.infinity = some AfMode.infinity
mode_to_af_mode s Mode.macro = some AfMode.macro
mode_to_af_mode s Mode.edof = some AfMode.edof
mode_to_af_mode s Mode.continuous_video = some AfMode.continuous_video
mode_to_af_mode s Mode.continuous_picture =
    some
      (if s.flag_face_detection then AfMode.continuous_picture_face else AfMode.continuous_picture)
mode_to_af_mode s Mode.continuous_picture_macro =
    some
      (if s.flag_face_detection then AfMode.continuous_picture_face else AfMode.continuous_picture)
mode_to_af_mode s Mode.touch = some (if s.recording_hint then AfMode.auto_video else AfMode.auto)
mode_to_af_mode s _ = none

abbrev pub is_af_off : AfMode → Bool
is_af_off AfMode.off = true
is_af_off _ = false

abbrev pub Frame : Type 0
Frame = Autofocus × Shot

abbrev pub ask_af : AfMode → ℕ → Shot → Shot
ask_af mode trigger shot = record shot {
  ctl = record (shot.ctl) { af_mode = mode; af_trigger = trigger };
}

abbrev pub ask_regions : List ℕ → Shot → Shot
ask_regions regions shot = record shot { ctl = record (shot.ctl) { af_regions = regions } }

-- The weight of the whole frame, by the macro position.
abbrev pub macro_weight : Mode → MacroPosition → ℕ
macro_weight Mode.continuous_picture MacroPosition.center = 102
macro_weight Mode.continuous_picture MacroPosition.center_up = 101
macro_weight Mode.macro MacroPosition.center = 102
macro_weight Mode.macro MacroPosition.center_up = 101
macro_weight _ _ = 1000

-- The five `afRegions` for a mode.
unfoldable pub regions_for : Mode → Autofocus → List ℕ
regions_for Mode.touch s =
    to_uint s.focus_area.x1
    ∷ to_uint s.focus_area.y1
    ∷ to_uint s.focus_area.x2
    ∷ to_uint s.focus_area.y2
    ∷ to_uint s.focus_weight
    ∷ []
regions_for mode s = 0 ∷ 0 ∷ 0 ∷ 0 ∷ macro_weight mode s.macro_position ∷ []

-- The step after AUTOFOCUS_STEP_START: some modes scan at once.
abbrev pub start_step : Mode → Step
start_step Mode.infinity = Step.scanning
start_step Mode.fixed = Step.scanning
start_step Mode.continuous_video = Step.scanning
start_step Mode.continuous_picture = Step.scanning
start_step Mode.continuous_picture_macro = Step.scanning
start_step _ = Step.start_scanning

-- AUTOFOCUS_STEP_REQUEST
unfoldable pub before_request : Autofocus → Autofocus
before_request s =
    if is_af_off s.aa_af_mode || ltb request_limit s.step_request_count
    then record s { step_request_count = 0; autofocus_step = Step.start }
    else record s { step_request_count = s.step_request_count + 1 }

-- AUTOFOCUS_STEP_START, by the mode for the firmware
unfoldable pub before_start : Option AfMode → Autofocus → Shot → Frame
before_start none s shot = (record s { autofocus_step = Step.stop }, shot)
before_start (some mode) s shot = (
  record s {
    interenal_auto_focus_mode = s.auto_focus_mode;
    autofocus_step = start_step s.auto_focus_mode;
  },
  ask_regions (regions_for s.auto_focus_mode s) (ask_af mode 1 shot),
)

abbrev pub finish_scan : Autofocus → Autofocus
finish_scan s = record s { wait_count_fail_state = 0; autofocus_step = Step.done }

abbrev pub count_scan : Autofocus → Autofocus
count_scan s = record s { wait_count_fail_state = s.wait_count_fail_state + 1 }

-- AUTOFOCUS_STEP_SCANNING, a mode that ends: a failure counts only from the eighth on.
abbrev pub scan_result : State → Autofocus → Autofocus
scan_result State.success s = finish_scan s
scan_result State.fail s =
    if ltb s.wait_count_fail_state fail_limit then count_scan s else finish_scan s
scan_result _ s = count_scan s

-- AUTOFOCUS_STEP_SCANNING, by the mode
unfoldable pub before_scanning : Mode → State → Autofocus → Autofocus
before_scanning Mode.continuous_video state s = s
before_scanning Mode.continuous_picture state s = s
before_scanning Mode.continuous_picture_macro state s = s
before_scanning _ state s = scan_result state s

-- AUTOFOCUS_STEP_START_SCANNING
abbrev pub before_start_scanning : State → Autofocus → Autofocus
before_start_scanning State.scanning s = record s {
  autofocus_step = Step.scanning;
  wait_count_fail_state = 0;
}
before_start_scanning _ s = s

-- The `switch` over `m_autofocusStep`.
unfoldable pub before_step : Step → State → Autofocus → Shot → Frame
before_step Step.stop state s shot = (s, ask_af AfMode.off 0 shot)
before_step Step.request state s shot = (before_request s, ask_af AfMode.off 0 shot)
before_step Step.start state s shot = before_start (mode_to_af_mode s s.auto_focus_mode) s shot
before_step Step.start_scanning state s shot = (before_start_scanning state s, shot)
before_step Step.scanning state s shot = (before_scanning s.interenal_auto_focus_mode state s, shot)
before_step Step.done state s shot = (s, ask_af AfMode.off 0 shot)
before_step Step.base state s shot = (s, shot)

unfoldable pub func_3a_before : Autofocus → Shot → Frame
func_3a_before s shot = before_step s.autofocus_step (get_current_state s) (note_state s) shot

unfoldable pub func_3a_after : Autofocus → Shot → Autofocus
func_3a_after s shot = record s {
  aa_af_state = shot.dm.af_state;
  aa_af_mode = shot.ctl.af_mode;
  frame_count = to_int shot.dm.frame_count;
}
