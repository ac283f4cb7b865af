-- ===== src/Camera/Autofocus/State.antt =====
-- The enumerations, the members and the constructor of `ExynosCameraActivityAutofocus`
-- (libcamera/ExynosCameraActivityAutofocus.h and .cpp).
use android_hardware_samsung.Common.{ℕ, Bool, false}
use android_hardware_samsung.Common.Int.{ℤ, pos}
use android_hardware_samsung.Camera.Shot.{AfMode, AfState}

-- `enum AUTOFOCUS_MODE`; `other` is an `int` that is none of its enumerators.
pub data Mode : Type 0 where
  base auto infinity macro fixed edof continuous_video continuous_picture touch : Mode
  continuous_picture_macro : Mode
  other : ℤ → Mode

-- `enum AUTOFOCUS_MACRO_POSITION`, and any other `int`.
pub data MacroPosition : Type 0 where
  base center center_up : MacroPosition
  other : ℤ → MacroPosition

-- `enum AUTOFOCUS_STATE`
pub data State : Type 0 where
  none scanning success fail : State

-- `enum AUTOFOCUS_STEP`
pub data Step : Type 0 where
  base stop request start start_scanning scanning done : Step

-- `ExynosRect2`, which the class only copies.
pub record Rect2 : Type 0 where
  pub x1 : ℤ
  pub y1 : ℤ
  pub x2 : ℤ
  pub y2 : ℤ

pub record Autofocus : Type 0 where
  pub flag_autofocus_start : Bool
  pub flag_autofocus_lock : Bool
  pub auto_focus_mode : Mode
  pub interenal_auto_focus_mode : Mode
  pub focus_area : Rect2
  pub focus_weight : ℤ
  pub autofocus_step : Step
  pub aa_af_state : AfState
  pub af_state : State
  pub aa_af_mode : AfMode
  pub wait_count_fail_state : ℕ
  pub step_request_count : ℕ
  pub frame_count : ℤ
  pub recording_hint : Bool
  pub flag_face_detection : Bool
  pub macro_position : MacroPosition

-- WAIT_COUNT_FAIL_STATE and AUTOFOCUS_WAIT_COUNT_STEP_REQUEST
abbrev pub fail_limit : ℕ
fail_limit = 7

abbrev pub request_limit : ℕ
request_limit = 3

-- `ExynosCameraActivityAutofocus()`; the area is what its own constructor leaves.
unfoldable pub new : Rect2 → Autofocus
new area = record {
  flag_autofocus_start = false;
  flag_autofocus_lock = false;
  auto_focus_mode = Mode.infinity;
  interenal_auto_focus_mode = Mode.base;
  focus_area = area;
  focus_weight = pos 0;
  autofocus_step = Step.request;
  aa_af_state = AfState.inactive;
  af_state = State.none;
  aa_af_mode = AfMode.off;
  wait_count_fail_state = 0;
  step_request_count = 0;
  frame_count = pos 0;
  recording_hint = false;
  flag_face_detection = false;
  macro_position = MacroPosition.base;
}
