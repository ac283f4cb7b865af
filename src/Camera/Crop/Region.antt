-- ===== src/Camera/Crop/Region.antt =====
-- Where the crop rectangles lie.
use android_hardware_samsung.Common.{
  ℕ, ◌+◌, ◌-◌, ◌*◌, ◌/◌, ◌%◌, ◌^◌, ◌≤◌, ◌<◌, ◌≡◌, Bool, true, false, if◌then◌else◌, ap, ◌∙◌, arith,
}
use native.Mathlib.Nat.{div-add-mod, mod-lt, mod_self, mul-mod_right, mul-add-mod_self_left}
use android_hardware_samsung.Common.Mask.{pow_positive, bit_and-pow}
use android_hardware_samsung.Camera.Crop.{
  Floats, Size, Rect, cropped, is_zero, same_size, shrunk, zoom_size, round_to, rounded, placed,
  get_crop_rect_align, camera_magic_align, get_crop_rect, real_zoom, region, aligned_region,
  set_zoom,
}

-- The sizes for which the floating-point numbers are exact enough.
abbrev pub IsSmall : Size → Type 0
IsSmall s = (s.w < 2 ^ 16) × (s.h < 2 ^ 16)

-- What rounding to the nearest float keeps of the exact quotients of small sizes: a side that is
-- scaled to the smaller ratio does not grow, and a zoom never enlarges.
pub record IsRounded (f : Floats) : Type 0 where
  pub times_le :
      (src dst : Size)
      → IsSmall src
      → IsSmall dst
      → f.at_most dst.w dst.h src.w src.h ≡ true
      → f.times src.h dst.w dst.h ≤ src.w
  pub over_le :
      (src dst : Size)
      → IsSmall src
      → IsSmall dst
      → f.at_most dst.w dst.h src.w src.h ≡ false
      → f.over src.w dst.w dst.h ≤ src.h
  pub zoomed_le : (n zoom : ℕ) → n < 2 ^ 16 → f.zoomed n zoom ≤ n

-- `getCropRect` answers what `getCropRectAlign` does with the alignments 32 and 16, for all sizes,
-- errors included, and whatever the floats are.
pub get_crop_rect_lem :
    (f : Floats) (src dst : Size) (zoom : ℕ)
    → get_crop_rect f src dst zoom
      ≡ get_crop_rect_align f src dst (camera_magic_align * 2) camera_magic_align zoom
unfolding get_crop_rect get_crop_rect_align
get_crop_rect_lem f src dst zoom = ground arith

down_aligned : (a n : ℕ) → (n - n % a) % a ≡ 0
down_aligned a n = ap (λ m. m % a) (whole a n (div-add-mod n a)) ∙ mul-mod_right a (n / a)
  where
    whole : (a n : ℕ) → a * (n / a) + n % a ≡ n → n - n % a ≡ a * (n / a)
    whole a n e = omega arith

up_aligned : (a n : ℕ) → 0 < a → (n + (a - n % a)) % a ≡ 0
up_aligned a n p =
    ap (λ m. m % a) (whole a n (div-add-mod n a) (mod-lt n p))
    ∙ (mul-add-mod_self_left a (n / a) a ∙ mod_self a)
  where
    whole : (a n : ℕ) → a * (n / a) + n % a ≡ n → n % a < a → n + (a - n % a) ≡ a * (n / a) + a
    whole a n e l = omega arith

-- Rounding a side that fits leaves one that fits and is aligned.
round_to_lem :
    (i limit n : ℕ)
    → n ≤ limit
    → (round_to (2 ^ i) limit n ≤ limit) × (round_to (2 ^ i) limit n % 2 ^ i ≡ 0)
unfolding round_to
round_to_lem i limit n h =
    let p = pow_positive i in
    ground (arith, bit_and-pow i n, down_aligned (2 ^ i) n, up_aligned (2 ^ i) n p)

shrunk_fits :
    (f : Floats) (src dst : Size)
    → IsRounded f
    → IsSmall src
    → IsSmall dst
    → ((shrunk f src dst).w ≤ src.w) × ((shrunk f src dst).h ≤ src.h)
shrunk_fits f src dst r a b = ground (arith, r.times_le src dst a b, r.over_le src dst a b)

zoom_fits :
    (f : Floats) (zoom : ℕ) (src s : Size)
    → IsRounded f
    → IsSmall src
    → s.w ≤ src.w
    → s.h ≤ src.h
    → ((zoom_size f zoom s).w ≤ src.w) × ((zoom_size f zoom s).h ≤ src.h)
zoom_fits f zoom src s r a w h =
    let l : s.w < 2 ^ 16 = omega (arith, a.0) in
    let m : s.h < 2 ^ 16 = omega (arith, a.1) in
    ground (arith, r.zoomed_le s.w zoom l, r.zoomed_le s.h zoom m)

-- A rectangle of aligned sides inside the source, in its middle to a pixel.
pub record IsCentred (src : Size) (align_w align_h : ℕ) (r : Rect) : Type 0 where
  pub in_width : r.x + r.size.w ≤ src.w
  pub in_height : r.y + r.size.h ≤ src.h
  pub aligned_width : r.size.w % align_w ≡ 0
  pub aligned_height : r.size.h % align_h ≡ 0
  pub low_x : r.x ≤ src.w - (r.x + r.size.w)
  pub low_y : r.y ≤ src.h - (r.y + r.size.h)
  pub middle_x : src.w - (r.x + r.size.w) ≤ r.x + 1
  pub middle_y : src.h - (r.y + r.size.h) ≤ r.y + 1

placed_fits :
    (src s : Size) (align_w align_h : ℕ)
    → s.w ≤ src.w
    → s.h ≤ src.h
    → s.w % align_w ≡ 0
    → s.h % align_h ≡ 0
    → ((r : Rect) × (placed src s ≡ cropped r) × IsCentred src align_w align_h r)
placed_fits src s align_w align_h w h u v = (
  record { x = (src.w - s.w) / 2; y = (src.h - s.h) / 2; size = s },
  ground arith,
  record {
    in_width = omega arith;
    in_height = omega arith;
    aligned_width = u;
    aligned_height = v;
    low_x = omega arith;
    low_y = omega arith;
    middle_x = omega arith;
    middle_y = omega arith;
  },
)

abbrev before_rounding : Floats → Size → Size → ℕ → Size
before_rounding f src dst zoom =
    zoom_size f zoom (if same_size src dst then src else shrunk f src dst)

before_rounding_fits :
    (f : Floats) (src dst : Size) (zoom : ℕ)
    → IsRounded f
    → IsSmall src
    → IsSmall dst
    → ((before_rounding f src dst zoom).w ≤ src.w) × ((before_rounding f src dst zoom).h ≤ src.h)
before_rounding_fits f src dst zoom r a b = go (same_size src dst)
  where
    go :
        (b : Bool)
        → ((zoom_size f zoom (if b then src else shrunk f src dst)).w ≤ src.w)
          × ((zoom_size f zoom (if b then src else shrunk f src dst)).h ≤ src.h)
    go true = zoom_fits f zoom src src r a (omega arith) (omega arith)
    go false =
        let s = shrunk_fits f src dst r a b in zoom_fits f zoom src (shrunk f src dst) r a s.0 s.1

-- A crop of sizes below 2 ^ 16 that are not zero, to alignments that are powers of two, the floats
-- being rounded, never fails: it is a rectangle of aligned sides inside the source, in its middle,
-- whatever the zoom.
pub get_crop_rect_align-IsCentred :
    (f : Floats) (src dst : Size) (i j zoom : ℕ)
    → IsRounded f
    → IsSmall src
    → IsSmall dst
    → is_zero src dst ≡ false
    → ((r : Rect) × (get_crop_rect_align f src dst (2 ^ i) (2 ^ j) zoom ≡ cropped r)
        × IsCentred src (2 ^ i) (2 ^ j) r)
unfolding get_crop_rect_align
get_crop_rect_align-IsCentred f src dst i j zoom r a b z =
    let s = before_rounding f src dst zoom in
    let fits = before_rounding_fits f src dst zoom r a b in
    let w = round_to_lem i src.w s.w fits.0 in
    let h = round_to_lem j src.h s.h fits.1 in
    let (rect, e, c) =
      placed_fits src (rounded (2 ^ i) (2 ^ j) src s) (2 ^ i) (2 ^ j) w.0 h.0 w.1 h.1 in
    (rect, rw z e, c)

-- What ALIGN is documented to do: the least multiple that is not below.
pub record IsAlign (align : ℕ → ℕ → ℕ) : Type 0 where
  pub multiple : (n a : ℕ) → 0 < a → align n a % a ≡ 0
  pub above : (n a : ℕ) → 0 < a → n ≤ align n a
  pub near : (n a : ℕ) → 0 < a → align n a < n + a

-- The region of a zoom.
pub record IsRegion (src : Size) (r : Rect) : Type 0 where
  pub in_width : r.x + r.size.w ≤ src.w
  pub in_height : r.y + r.size.h ≤ src.h
  pub even_x : r.x % 2 ≡ 0
  pub even_y : r.y % 2 ≡ 0
  pub aligned_width : r.size.w % 16 ≡ 0
  pub aligned_height : r.size.h % 2 ≡ 0

aligned_inside :
    (x w limit a : ℕ)
    → x ≤ a
    → a < x + 2
    → a % 2 ≡ 0
    → x + w ≤ limit
    → x ≤ limit - (x + w)
    → a + w ≤ limit
aligned_inside x w limit a l m e i c = omega arith

-- A zoom over sizes below 2 ^ 16 that are not zero, the floats being rounded, never fails: the region that it asks the firmware
-- for lies inside the source although its corner is moved up to an even pixel.
pub set_zoom-IsRegion :
    (f : Floats) (align : ℕ → ℕ → ℕ) (hw : Bool) (zoom : ℕ) (src dst : Size)
    → IsRounded f
    → IsAlign align
    → IsSmall src
    → IsSmall dst
    → is_zero src dst ≡ false
    → ((r : Rect) × (set_zoom f align hw zoom src dst ≡ region r) × IsRegion src r)
unfolding set_zoom
set_zoom-IsRegion f align hw zoom src dst r al a b z =
    let (rect, e, c) = get_crop_rect_align-IsCentred f src dst 4 1 (real_zoom hw zoom) r a b z in
    let two : 0 < 2 = omega arith in
    (
      record { x = align rect.x 2; y = align rect.y 2; size = rect.size },
      ap (aligned_region align) e,
      record {
        in_width =
            aligned_inside rect.x rect.size.w src.w (align rect.x 2) (al.above rect.x 2 two)
              (al.near rect.x 2 two) (al.multiple rect.x 2 two) c.in_width c.low_x;
        in_height =
            aligned_inside rect.y rect.size.h src.h (align rect.y 2) (al.above rect.y 2 two)
              (al.near rect.y 2 two) (al.multiple rect.y 2 two) c.in_height c.low_y;
        even_x = al.multiple rect.x 2 two;
        even_y = al.multiple rect.y 2 two;
        aligned_width = c.aligned_width;
        aligned_height = c.aligned_height;
      },
    )
