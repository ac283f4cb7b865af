-- ===== src/Camera/Autofocus/Setters.antt =====
-- The requests and the queries of libcamera/ExynosCameraActivityAutofocus.cpp. A method that
-- answers `true` on every path returns the new state alone.
use android_hardware_samsung.Common.{Bool, true, false}
use android_hardware_samsung.Common.Int.{ℤ}
use android_hardware_samsung.Camera.Autofocus.State.{Mode, MacroPosition, Step, Rect2, Autofocus}

-- The modes that the `switch` of `setAutofocusMode` lists.
abbrev pub is_listed : Mode → Bool
is_listed Mode.base = false
is_listed (Mode.other n) = false
is_listed _ = true

abbrev set_listed : Bool → Mode → Autofocus → Autofocus × Bool
set_listed true mode s = (record s { auto_focus_mode = mode }, true)
set_listed false mode s = (s, false)

unfoldable pub set_autofocus_mode : Mode → Autofocus → Autofocus × Bool
set_autofocus_mode mode s = set_listed (is_listed mode) mode s

unfoldable pub get_autofocus_mode : Autofocus → Mode
get_autofocus_mode s = s.auto_focus_mode

unfoldable pub set_focus_areas : Rect2 → ℤ → Autofocus → Autofocus
set_focus_areas rect weight s = record s { focus_area = rect; focus_weight = weight }

unfoldable pub get_focus_areas : Autofocus → Rect2 × ℤ
get_focus_areas s = (s.focus_area, s.focus_weight)

unfoldable pub start_autofocus : Autofocus → Autofocus
start_autofocus s = record s { autofocus_step = Step.request; flag_autofocus_start = true }

unfoldable pub stop_autofocus : Autofocus → Autofocus
stop_autofocus s = record s { autofocus_step = Step.stop; flag_autofocus_start = false }

unfoldable pub unlock_autofocus : Autofocus → Autofocus
unlock_autofocus s = record s { flag_autofocus_lock = false }

unfoldable pub set_recording_hint : Bool → Autofocus → Autofocus
set_recording_hint hint s = record s { recording_hint = hint }

unfoldable pub set_face_detection : Bool → Autofocus → Autofocus
set_face_detection toggle s = record s { flag_face_detection = toggle }

unfoldable pub set_macro_position : MacroPosition → Autofocus → Autofocus
set_macro_position position s = record s { macro_position = position }
