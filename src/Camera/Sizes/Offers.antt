-- ===== src/Camera/Sizes/Offers.antt =====
-- What is offered, accepted and chosen of the sizes, against the sizes that fit the sensor.
use android_hardware_samsung.Common.{
  ℕ, ◌≤◌, ◌≡◌, ◌≢◌, Bool, true, false, not, ◌&&◌, Option, some, none, List, [], ◌∷◌, ◌++◌, ltb,
  if◌then◌else◌, Bool-cases, inl, inr, refl, ap, sym, ◌∙◌, arith,
}
use android_hardware_samsung.Camera.Crop.{Size, same_size}
use android_hardware_samsung.Camera.Sizes.{
  size, Mode, list_of, picture_list, video_list, fits, resolution_loop, resolution_result,
  get_resolution_list, supported_loop, is_supported_size, matched_loop, get_matched_picture_size,
}

-- The sizes of a list that fit, in its order.
abbrev pub offered : Size → List Size → List Size
offered most [] = []
offered most (s ∷ ss) = if fits most s then s ∷ offered most ss else offered most ss

abbrev pub has_size : Size → List Size → Bool
has_size s [] = false
has_size s (t ∷ ts) = if same_size t s then true else has_size s ts

-- The texts behind the first, each after a comma.
abbrev pub tail_text : (Size → List ℕ) → List Size → List ℕ
tail_text text [] = []
tail_text text (s ∷ ss) = (b',' ∷ text s) ++ tail_text text ss

abbrev pub joined : (Size → List ℕ) → List Size → List ℕ
joined text [] = []
joined text (s ∷ ss) = text s ++ tail_text text ss

-- What `m_getResolutionList` is to answer for the sizes offered.
abbrev pub described : (Size → List ℕ) → List ℕ → List Size → Bool × List ℕ × Size
described text buf [] = (false, buf, size 0 0)
described text buf (s ∷ ss) = (true, buf ++ joined text (s ∷ ss), s)

append_nil : (xs : List ℕ) → xs ++ [] ≡ xs
append_nil [] = refl
append_nil (x ∷ xs) = ap (λ l. x ∷ l) (append_nil xs)

append_append : (xs ys zs : List ℕ) → (xs ++ ys) ++ zs ≡ xs ++ (ys ++ zs)
append_append [] ys zs = refl
append_append (x ∷ xs) ys zs = ap (λ l. x ∷ l) (append_append xs ys zs)

loop_some :
    (text : Size → List ℕ) (most f : Size) (ss : List Size) (buf : List ℕ)
    → resolution_loop text most ss buf (some f) ≡ (buf ++ tail_text text (offered most ss), some f)
unfolding resolution_loop
loop_some text most f [] buf = ap (λ b. (b, some f)) (sym (append_nil buf))
loop_some text most f (s ∷ ss) buf = elim (Bool-cases (fits most s)) [
  | inl y ↦ rw y (
      loop_some text most f ss (buf ++ (b',' ∷ text s))
      ∙ ap (λ b. (b, some f))
          (append_append buf (b',' ∷ text s) (tail_text text (offered most ss))))
  | inr n ↦ rw n (loop_some text most f ss buf)
]

loop_none :
    (text : Size → List ℕ) (most : Size) (ss : List Size) (buf : List ℕ)
    → resolution_result (resolution_loop text most ss buf none)
      ≡ described text buf (offered most ss)
unfolding resolution_loop
loop_none text most [] buf = refl
loop_none text most (s ∷ ss) buf = elim (Bool-cases (fits most s)) [
  | inl y ↦ rw y (
      ap resolution_result (loop_some text most s ss (buf ++ text s))
      ∙ ap (λ b. (true, b, s)) (append_append buf (text s) (tail_text text (offered most ss))))
  | inr n ↦ rw n (loop_none text most ss buf)
]

-- `m_getResolutionList` appends the sizes of its list that fit, in the order of the list and with
-- commas between them, and writes back the first; where none fits, it appends nothing, answers
-- false and writes back zeros.
pub get_resolution_list_lem :
    (text : Size → List ℕ) (mode : Mode) (most : Size) (buf : List ℕ)
    → get_resolution_list text mode most buf ≡ described text buf (offered most (list_of mode))
unfolding get_resolution_list
get_resolution_list_lem text mode most buf = loop_none text most (list_of mode) buf

supported_loop_lem :
    (most s : Size) (ts : List Size) → supported_loop most s ts ≡ has_size s (offered most ts)
unfolding supported_loop
supported_loop_lem most s [] = refl
supported_loop_lem most s (t ∷ ts) = ground (arith, supported_loop_lem most s ts)

too_big_absent :
    (most s : Size) (ts : List Size) → fits most s ≡ false → has_size s (offered most ts) ≡ false
too_big_absent most s [] h = refl
too_big_absent most s (t ∷ ts) h = ground (arith, too_big_absent most s ts h)

-- A size is accepted exactly when it is one of those that are offered, in each mode.
pub is_supported_size_lem :
    (mode : Mode) (most s : Size)
    → is_supported_size mode most s ≡ has_size s (offered most (list_of mode))
unfolding is_supported_size
is_supported_size_lem mode most s =
    ground (arith, supported_loop_lem most s (list_of mode), too_big_absent most s (list_of mode))

abbrev pub first_matching : (Size → Bool) → List Size → Option Size
first_matching p [] = none
first_matching p (s ∷ ss) = if p s then some s else first_matching p ss

matched_loop_lem :
    (same_ratio : Size → Size → Bool) (src most : Size) (ts : List Size)
    → matched_loop same_ratio src most ts ≡ first_matching (same_ratio src) (offered most ts)
unfolding matched_loop
matched_loop_lem same_ratio src most [] = refl
matched_loop_lem same_ratio src most (t ∷ ts) =
    ground (arith, matched_loop_lem same_ratio src most ts)

matching_has :
    (p : Size → Bool) (s : Size) (ss : List Size)
    → first_matching p ss ≡ some s
    → (p s ≡ true) × (has_size s ss ≡ true)
matching_has p s [] e = cc
matching_has p s (t ∷ ts) e = ground (arith, matching_has p s ts)

-- The picture size that is chosen for a preview has its ratio, and is accepted as a picture size.
pub matched-IsSupported :
    (same_ratio : Size → Size → Bool) (most src s : Size)
    → get_matched_picture_size same_ratio most src ≡ some s
    → (same_ratio src s ≡ true) × (is_supported_size Mode.picture most s ≡ true)
unfolding get_matched_picture_size
matched-IsSupported same_ratio most src s e =
    let (r, h) =
      matching_has (same_ratio src) s (offered most picture_list)
        (sym (matched_loop_lem same_ratio src most picture_list) ∙ e) in
    (r, is_supported_size_lem Mode.picture most s ∙ h)

-- No size of a list is wider than the one before it, nor the first than `w`.
abbrev narrows : ℕ → List Size → Bool
narrows w [] = true
narrows w (s ∷ ss) = not (ltb w s.w) && narrows s.w ss

narrows_all :
    (w : ℕ) (most s : Size) (ss : List Size)
    → narrows w ss ≡ true
    → has_size s (offered most ss) ≡ true
    → s.w ≤ w
narrows_all w most s [] n h = cc
narrows_all w most s (t ∷ ts) n h = ground (arith, narrows_all t.w most s ts)

default_widest :
    (text : Size → List ℕ) (buf : List ℕ) (w : ℕ) (most s : Size) (ss : List Size)
    → narrows w ss ≡ true
    → has_size s (offered most ss) ≡ true
    → s.w ≤ (described text buf (offered most ss)).2.w
default_widest text buf w most s [] n h = cc
default_widest text buf w most s (t ∷ ts) n h =
    ground (arith, narrows_all t.w most s ts, default_widest text buf t.w most s ts)

-- For pictures and videos the size that `m_getResolutionList` writes back, which the camera takes
-- as its default, is at least as wide as every size that is offered.
pub default_is_widest :
    (text : Size → List ℕ) (mode : Mode) (most s : Size) (buf : List ℕ)
    → mode ≢ Mode.preview
    → has_size s (offered most (list_of mode)) ≡ true
    → s.w ≤ (get_resolution_list text mode most buf).2.w
default_is_widest text Mode.preview most s buf n h = absurd (n refl)
default_is_widest text Mode.picture most s buf n h =
    rw (get_resolution_list_lem text Mode.picture most buf)
      (default_widest text buf 4128 most s picture_list refl h)
default_is_widest text Mode.video most s buf n h =
    rw (get_resolution_list_lem text Mode.video most buf)
      (default_widest text buf 1920 most s video_list refl h)
