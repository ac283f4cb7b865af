-- ===== src/Camera/Fps.antt =====
-- The frame rates of libcamera/ExynosCameraHWImpl.cpp, from the list of libcamera/ExynosCamera.h.
-- Rates are not negative; `snprintf` is a parameter.
pub mod Choice
pub mod Tests
use android_hardware_samsung.Common.{
  ℕ, Bool, true, false, not, ◌&&◌, Option, some, none, List, [], ◌∷◌, ◌++◌, ltb, ◌==◌,
  if◌then◌else◌,
}

pub record Range : Type 0 where
  pub low : ℕ
  pub high : ℕ

abbrev pub range : ℕ → ℕ → Range
range low high = record { low = low; high = high }

-- FPS_RANGE_LIST
abbrev pub fps_range_list : List Range
fps_range_list =
    range 5000 5000
    ∷ range 7000 7000
    ∷ range 10000 10000
    ∷ range 15000 15000
    ∷ range 20000 20000
    ∷ range 24000 24000
    ∷ range 27000 27000
    ∷ range 4000 30000
    ∷ range 15000 30000
    ∷ range 30000 30000
    ∷ range 30000 60000
    ∷ []

abbrev pub within : Range → Range → Bool
within most r = not (ltb r.low most.low) && not (ltb most.high r.high)

-- The loop of `m_getSupportedFpsList`: `text` prints "(%d,%d)".
unfoldable pub fps_loop : (Range → List ℕ) → Range → List Range → Bool → List ℕ → Bool × List ℕ
fps_loop text most [] is_first buf = (not is_first, buf)
fps_loop text most (r ∷ rs) true buf =
    if within most r
    then fps_loop text most rs false (buf ++ text r)
    else fps_loop text most rs true buf
fps_loop text most (r ∷ rs) false buf =
    if within most r
    then fps_loop text most rs false (buf ++ (b',' ∷ text r))
    else fps_loop text most rs false buf

-- `m_getSupportedFpsList`: `ret` is set where `flagFirst` is cleared.
unfoldable pub get_supported_fps_list : (Range → List ℕ) → Range → List ℕ → Bool × List ℕ
get_supported_fps_list text most buf = fps_loop text most fps_range_list true buf

-- The first loop of `m_getSupportedVariableFpsList`, by what it has found so far: the last range
-- with the wanted end that is not a single rate, or the wanted one.
unfoldable pub similar_loop : Range → List Range → Option Range → Option Range
similar_loop want [] found = found
similar_loop want (r ∷ rs) found =
    let skip = similar_loop want rs found in
    let take = similar_loop want rs (some r) in
    if r.high == want.high
    then (if r.low == want.low then some r else if r.low == want.high then skip else take)
    else skip

-- The second loop.
unfoldable pub wider_loop : Range → List Range → Option Range
wider_loop want [] = none
wider_loop want (r ∷ rs) =
    let rest = wider_loop want rs in
    if not (ltb r.high want.high) && not (r.high == r.low) then some r else rest

abbrev pub or_wider : Range → Option Range → Option Range
or_wider want (some r) = some r
or_wider want none = wider_loop want fps_range_list

-- `m_getSupportedVariableFpsList`; `none` is false, with nothing written.
unfoldable pub get_supported_variable_fps_list : Range → Option Range
get_supported_variable_fps_list want = or_wider want (similar_loop want fps_range_list none)
