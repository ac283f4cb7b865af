-- ===== src/Camera/Fps/Tests.antt =====
-- The choice of a range at concrete inputs.
use android_hardware_samsung.Common.{◌≡◌, some, arith}
use android_hardware_samsung.Camera.Fps.{Range, range, get_supported_variable_fps_list}
use android_hardware_samsung.Camera.Fps.Choice.{IsChoice, some_range-IsChoice}

some_range-IsChoice_example :
    ((r : Range) × (get_supported_variable_fps_list (range 12500 25000) ≡ some r)
      × IsChoice (range 12500 25000) r)
some_range-IsChoice_example = some_range-IsChoice (range 12500 25000) (omega arith)
