-- ===== src/Camera/Sizes.antt =====
-- The sizes that the camera offers: the lists of libcamera/ExynosCamera.h, and what
-- libcamera/ExynosCameraHWImpl.cpp does with them. `snprintf` and the comparison of floating-point
-- ratios are parameters.
pub mod Offers
pub mod Tests
use android_hardware_samsung.Common.{
  ℕ, Bool, true, false, not, ◌&&◌, ◌||◌, Option, some, none, List, [], ◌∷◌, ◌++◌, ltb, ◌==◌,
  if◌then◌else◌,
}
use android_hardware_samsung.Camera.Crop.{Size, same_size}

abbrev pub size : ℕ → ℕ → Size
size w h = record { w = w; h = h }

abbrev pub preview_list : List Size
preview_list =
    size 4128 3096
    ∷ size 4096 3072
    ∷ size 3200 2400
    ∷ size 3072 1728
    ∷ size 2592 1944
    ∷ size 2592 1936
    ∷ size 2560 1920
    ∷ size 2048 1536
    ∷ size 1920 1080
    ∷ size 1440 1080
    ∷ size 1600 1200
    ∷ size 1392 1392
    ∷ size 1280 960
    ∷ size 1280 720
    ∷ size 1056 864
    ∷ size 1024 768
    ∷ size 800 600
    ∷ size 800 480
    ∷ size 720 480
    ∷ size 640 480
    ∷ size 528 432
    ∷ size 480 320
    ∷ size 480 270
    ∷ size 352 288
    ∷ size 320 240
    ∷ []

abbrev pub picture_list : List Size
picture_list =
    size 4128 3096
    ∷ size 4128 2322
    ∷ size 4096 3072
    ∷ size 4096 2304
    ∷ size 3264 2448
    ∷ size 3264 1836
    ∷ size 3200 2400
    ∷ size 3072 1728
    ∷ size 2592 1944
    ∷ size 2592 1936
    ∷ size 2560 1920
    ∷ size 2048 1536
    ∷ size 2048 1152
    ∷ size 1920 1080
    ∷ size 1600 1200
    ∷ size 1440 1080
    ∷ size 1280 960
    ∷ size 1280 720
    ∷ size 1024 768
    ∷ size 800 600
    ∷ size 800 480
    ∷ size 720 480
    ∷ size 640 480
    ∷ size 512 384
    ∷ size 512 288
    ∷ size 480 320
    ∷ size 320 240
    ∷ size 320 180
    ∷ []

abbrev pub video_list : List Size
video_list =
    size 1920 1080
    ∷ size 1440 1080
    ∷ size 1280 720
    ∷ size 960 720
    ∷ size 720 480
    ∷ size 640 480
    ∷ size 480 320
    ∷ size 320 240
    ∷ size 176 144
    ∷ []

-- MODE_PREVIEW, MODE_PICTURE and MODE_VIDEO
pub data Mode : Type 0 where
  preview picture video : Mode

abbrev pub list_of : Mode → List Size
list_of Mode.preview = preview_list
list_of Mode.picture = picture_list
list_of Mode.video = video_list

abbrev pub fits : Size → Size → Bool
fits most s = not (ltb most.w s.w) && not (ltb most.h s.h)

-- The loop of `m_getResolutionList` over the rest of a list: the string so far and the first size,
-- which has cleared `flagFirst`.
unfoldable pub resolution_loop :
    (Size → List ℕ) → Size → List Size → List ℕ → Option Size → List ℕ × Option Size
resolution_loop text most [] buf first = (buf, first)
resolution_loop text most (s ∷ ss) buf none =
    if fits most s
    then resolution_loop text most ss (buf ++ text s) (some s)
    else resolution_loop text most ss buf none
resolution_loop text most (s ∷ ss) buf (some f) =
    if fits most s
    then resolution_loop text most ss (buf ++ (b',' ∷ text s)) (some f)
    else resolution_loop text most ss buf (some f)

-- Whether there is a resolution, the string, and the size that is written back.
abbrev pub resolution_result : List ℕ × Option Size → Bool × List ℕ × Size
resolution_result (buf, none) = (false, buf, size 0 0)
resolution_result (buf, some f) = (true, buf, f)

-- `m_getResolutionList`; `text` prints "%dx%d".
unfoldable pub get_resolution_list : (Size → List ℕ) → Mode → Size → List ℕ → Bool × List ℕ × Size
get_resolution_list text mode most buf =
    resolution_result (resolution_loop text most (list_of mode) buf none)

unfoldable pub supported_loop : Size → Size → List Size → Bool
supported_loop most s [] = false
supported_loop most s (t ∷ ts) =
    let rest = supported_loop most s ts in
    if not (fits most t) then rest else if same_size t s then true else rest

-- `m_isSupportedPreviewSize`, `m_isSupportedPictureSize` and `m_isSupportedVideoSize`, with what
-- the sensor supports at most.
unfoldable pub is_supported_size : Mode → Size → Size → Bool
is_supported_size mode most s =
    if ltb most.w s.w || ltb most.h s.h then false else supported_loop most s (list_of mode)

unfoldable pub matched_loop : (Size → Size → Bool) → Size → Size → List Size → Option Size
matched_loop same_ratio src most [] = none
matched_loop same_ratio src most (t ∷ ts) =
    let rest = matched_loop same_ratio src most ts in
    if not (fits most t) then rest else if same_ratio src t then some t else rest

-- `m_getMatchedPictureSize`; `same_ratio` compares (float)w / (float)h.
unfoldable pub get_matched_picture_size : (Size → Size → Bool) → Size → Size → Option Size
get_matched_picture_size same_ratio most src = matched_loop same_ratio src most picture_list
