-- ===== src/Camera/Crop/Tests.antt =====
-- Crops with exact quotients, of which the floats are the rounded ones.
use native.Mathlib.Nat.{div-lt_iff_lt-mul, div-zero, mul_comm}
use android_hardware_samsung.Common.{
  ℕ, zero, suc, ◌+◌, ◌-◌, ◌*◌, ◌/◌, ◌%◌, ◌≤◌, ◌<◌, ◌≡◌, true, false, not, ltb, refl, arith,
}
use native.Mathlib.Nat.{div-add-mod, mod-lt, mul-mod_left, mul-le-mul_left}
use android_hardware_samsung.Camera.Crop.{
  Floats, Size, Rect, cropped, get_crop_rect_align, region, set_zoom,
}
use android_hardware_samsung.Camera.Crop.Region.{
  IsRounded, IsAlign, IsCentred, IsRegion, get_crop_rect_align-IsCentred, set_zoom-IsRegion,
}

abbrev exact : Floats
exact = record {
  at_most = λ a b c d. not (ltb (c * b) (a * d));
  times = λ n a b. n * a / b;
  over = λ n a b. n * b / a;
  zoomed = λ n zoom. n * 10 / (zoom + 10);
}

split : (m k : ℕ) → suc m * k ≡ k + m * k
split m k = ground arith

div_le : (n m k : ℕ) → n ≤ m * k → n / k ≤ m
div_le n m zero h = rw (div-zero n) (omega arith)
div_le n m (suc k) h =
    let l : n < suc m * suc k = omega (arith, split m (suc k)) in
    let b : n / suc k < suc m = (div-lt_iff_lt-mul {k = suc k} (omega arith)).1 l in
    omega (arith, b)

reflects : (a b : ℕ) → not (ltb a b) ≡ true → b ≤ a
reflects a b e = ground arith

reflects_not : (a b : ℕ) → not (ltb a b) ≡ false → a ≤ b
reflects_not a b e = ground arith

grow : (n zoom : ℕ) → n * 10 ≤ n * (zoom + 10)
grow n zoom = mul-le-mul_left n (omega arith)

exact-IsRounded : IsRounded exact
exact-IsRounded = record {
  times_le = λ src dst a b e. div_le (src.h * dst.w) src.w dst.h (
      omega (
        arith,
        mul_comm src.h dst.w,
        mul_comm src.w dst.h,
        reflects (src.w * dst.h) (dst.w * src.h) e,
      ));
  over_le = λ src dst a b e. div_le (src.w * dst.h) src.h dst.w (
      omega (
        arith,
        mul_comm src.h dst.w,
        mul_comm src.w dst.h,
        reflects_not (src.w * dst.h) (dst.w * src.h) e,
      ));
  zoomed_le = λ n zoom h. div_le (n * 10) n (zoom + 10) (grow n zoom);
}

abbrev align : ℕ → ℕ → ℕ
align n a = (n + (a - 1)) / a * a

align-IsAlign : IsAlign align
align-IsAlign = record {
  multiple = λ n a p. mul-mod_left ((n + (a - 1)) / a) a;
  above = λ n a p.
      above n a p (div-add-mod (n + (a - 1)) a) (mod-lt (n + (a - 1)) p)
        (mul_comm a ((n + (a - 1)) / a));
  near = λ n a p. near n a p (div-add-mod (n + (a - 1)) a) (mul_comm a ((n + (a - 1)) / a));
}
  where
    above :
        (n a : ℕ)
        → 0 < a
        → a * ((n + (a - 1)) / a) + (n + (a - 1)) % a ≡ n + (a - 1)
        → (n + (a - 1)) % a < a
        → a * ((n + (a - 1)) / a) ≡ align n a
        → n ≤ align n a
    above n a p e l c = omega arith

    near :
        (n a : ℕ)
        → 0 < a
        → a * ((n + (a - 1)) / a) + (n + (a - 1)) % a ≡ n + (a - 1)
        → a * ((n + (a - 1)) / a) ≡ align n a
        → align n a < n + a
    near n a p e c = omega arith

abbrev sensor : Size
sensor = record { w = 1920; h = 1080 }

abbrev preview : Size
preview = record { w = 640; h = 480 }

get_crop_rect_align-IsCentred_example :
    ((r : Rect) × (get_crop_rect_align exact sensor preview 16 2 5 ≡ cropped r)
      × IsCentred sensor 16 2 r)
get_crop_rect_align-IsCentred_example =
    get_crop_rect_align-IsCentred exact sensor preview 4 1 5 exact-IsRounded
      (omega arith, omega arith) (omega arith, omega arith) refl

set_zoom-IsRegion_example :
    ((r : Rect) × (set_zoom exact align false 5 sensor preview ≡ region r) × IsRegion sensor r)
set_zoom-IsRegion_example =
    set_zoom-IsRegion exact align false 5 sensor preview exact-IsRounded align-IsAlign
      (omega arith, omega arith) (omega arith, omega arith) refl
