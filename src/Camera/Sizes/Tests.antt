-- ===== src/Camera/Sizes/Tests.antt =====
-- The sizes at concrete inputs.
use android_hardware_samsung.Common.{ℕ, ◌≡◌, true, List, [], ◌∷◌}
use android_hardware_samsung.Camera.Crop.{Size}
use android_hardware_samsung.Camera.Sizes.{size, Mode, get_resolution_list, is_supported_size}
use android_hardware_samsung.Camera.Sizes.Offers.{get_resolution_list_lem, is_supported_size_lem}

-- A number for each side, in place of its digits.
abbrev text : Size → List ℕ
text s = s.w ∷ b'x' ∷ s.h ∷ []

abbrev small : Size
small = size 480 320

get_resolution_list_lem_example :
    get_resolution_list text Mode.video small []
    ≡ (true, 480 ∷ b'x' ∷ 320 ∷ b',' ∷ 320 ∷ b'x' ∷ 240 ∷ b',' ∷ 176 ∷ b'x' ∷ 144 ∷ [], small)
get_resolution_list_lem_example = get_resolution_list_lem text Mode.video small []

is_supported_size_lem_example :
    is_supported_size Mode.preview (size 1920 1080) (size 1280 720) ≡ true
is_supported_size_lem_example = is_supported_size_lem Mode.preview (size 1920 1080) (size 1280 720)
