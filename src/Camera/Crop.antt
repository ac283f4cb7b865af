-- ===== src/Camera/Crop.antt =====
-- The crop rectangles of libcamera/ExynosCamera.cpp: getCropRect, getCropRectAlign and m_setZoom.
-- Sizes are not negative. The floating-point arithmetic and the macro ALIGN, whose header is not
-- part of the repository, are parameters (`Floats`, `align`).
pub mod Region
pub mod Tests
use Prim.Native.Nat.{bit_and}
use android_hardware_samsung.Common.{
  ℕ, ◌+◌, ◌-◌, ◌*◌, ◌/◌, ◌%◌, Bool, true, false, not, ◌&&◌, ◌||◌, ltb, ◌==◌, if◌then◌else◌,
}

-- The floating-point expressions of the source, on sizes.
pub record Floats : Type 0 where
  -- (float)a / (float)b <= (float)c / (float)d
  pub at_most : ℕ → ℕ → ℕ → ℕ → Bool
  -- (int)(n * ((float)a / (float)b)) and (int)(n / ((float)a / (float)b))
  pub times : ℕ → ℕ → ℕ → ℕ
  pub over : ℕ → ℕ → ℕ → ℕ
  -- (int)((float)n / (((float)zoom + 10.0) / 10.0))
  pub zoomed : ℕ → ℕ → ℕ

pub record Size : Type 0 where
  pub w : ℕ
  pub h : ℕ

pub record Rect : Type 0 where
  pub x : ℕ
  pub y : ℕ
  pub size : Size

-- What is written to the pointers: only the size where the result is false at once, and behind it
-- the position, which is negative where the size is too big.
pub data Cropped : Type 0 where
  refused too_big : Size → Cropped
  cropped : Rect → Cropped

abbrev pub is_zero : Size → Size → Bool
is_zero src dst = (src.w == 0 || src.h == 0) || (dst.w == 0 || dst.h == 0)

abbrev pub same_size : Size → Size → Bool
same_size a b = a.w == b.w && a.h == b.h

-- "shrink w" and "shrink h"
abbrev pub shrunk : Floats → Size → Size → Size
shrunk f src dst =
    if f.at_most dst.w dst.h src.w src.h
    then record { w = f.times src.h dst.w dst.h; h = src.h }
    else record { w = src.w; h = f.over src.w dst.w dst.h }

abbrev pub zoom_size : Floats → ℕ → Size → Size
zoom_size f zoom s =
    if zoom == 0 then s else record { w = f.zoomed s.w zoom; h = f.zoomed s.h zoom }

-- A size to the nearest multiple, unless that is bigger than the source. The masks by `align - 1`
-- are remainders when the alignment is a power of two; an alignment is not 0.
unfoldable pub round_to : ℕ → ℕ → ℕ → ℕ
round_to align limit n =
    let remain = bit_and n (align - 1) in
    if remain == 0
    then n
    else if not (ltb remain (align / 2)) && not (ltb limit (n + (align - remain)))
    then n + (align - remain)
    else n - remain

abbrev pub rounded : ℕ → ℕ → Size → Size → Size
rounded align_w align_h src s = record {
  w = round_to align_w src.w s.w;
  h = round_to align_h src.h s.h;
}

abbrev pub placed : Size → Size → Cropped
placed src s =
    if ltb src.w s.w || ltb src.h s.h
    then too_big s
    else cropped (record { x = (src.w - s.w) / 2; y = (src.h - s.h) / 2; size = s })

-- `getCropRectAlign`
unfoldable pub get_crop_rect_align : Floats → Size → Size → ℕ → ℕ → ℕ → Cropped
get_crop_rect_align f src dst align_w align_h zoom =
    if is_zero src dst
    then refused src
    else placed src (
        rounded align_w align_h src
          (zoom_size f zoom (if same_size src dst then src else shrunk f src dst)))

-- CAMERA_MAGIC_ALIGN
abbrev pub camera_magic_align : ℕ
camera_magic_align = 16

-- `getCropRect`, whose branches on the areas are the same.
unfoldable pub get_crop_rect : Floats → Size → Size → ℕ → Cropped
get_crop_rect f src dst zoom =
    if is_zero src dst
    then refused src
    else placed src (
        rounded (camera_magic_align * 2) camera_magic_align src (
          zoom_size f zoom (
            if same_size src dst
            then src
            else if ltb (dst.w * dst.h) (src.w * src.h)
            then shrunk f src dst
            else shrunk f src dst)))

-- Whether the sensor zooms itself.
abbrev pub real_zoom : Bool → ℕ → ℕ
real_zoom hw_zoom_supported zoom = if hw_zoom_supported then 0 else zoom

-- `cropRegion` of the frame, where it is written.
pub data ZoomResult : Type 0 where
  failed : ZoomResult
  region : Rect → ZoomResult

abbrev pub aligned_region : (ℕ → ℕ → ℕ) → Cropped → ZoomResult
aligned_region align (refused s) = failed
aligned_region align (too_big s) = failed
aligned_region align (cropped r) =
    region (record { x = align r.x 2; y = align r.y 2; size = r.size })

-- `m_setZoom`, without the member m_currentZoom, which is `zoom` afterwards.
unfoldable pub set_zoom : Floats → (ℕ → ℕ → ℕ) → Bool → ℕ → Size → Size → ZoomResult
set_zoom f align hw_zoom_supported zoom src dst =
    aligned_region align
      (get_crop_rect_align f src dst camera_magic_align 2 (real_zoom hw_zoom_supported zoom))
