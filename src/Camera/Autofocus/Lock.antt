-- ===== src/Camera/Autofocus/Lock.antt =====
-- `lockAutofocus` of libcamera/ExynosCameraActivityAutofocus.cpp. `seen k` is the activity at the
-- k-th round of the waiting, both loops counted on, and `last` the activity behind them. The
-- second loop has a constant for its condition, so it takes fuel, and `none` means that it ran
-- out.
use android_hardware_samsung.Common.{
  ℕ, zero, suc, ◌+◌, Bool, true, false, not, Option, some, none, if◌then◌else◌,
}
use android_hardware_samsung.Common.Int.{ℤ, pos, ◌+ℤ◌, ltb_ℤ}
use android_hardware_samsung.Camera.Shot.{AfState}
use android_hardware_samsung.Camera.Autofocus.State.{Autofocus}
use android_hardware_samsung.Camera.Autofocus.Setters.{stop_autofocus}

-- AUTOFOCUS_TOTAL_WATING_TIME_LOCK_AF, which bounds a counter of rounds, and the two counts of
-- frames.
abbrev pub lock_rounds : ℕ
lock_rounds = 300000

abbrev pub settle_frames : ℕ
settle_frames = 3

abbrev pub skip_frames : ℕ
skip_frames = 6

abbrev pub is_scan : AfState → Bool
is_scan AfState.passive_scan = true
is_scan AfState.active_scan = true
is_scan _ = false

abbrev pub may_move : AfState → Bool
may_move AfState.inactive = true
may_move state = is_scan state

-- `count + frames <= m_frameCount`
abbrev pub has_passed : ℤ → ℕ → Autofocus → Bool
has_passed count frames s = not (ltb_ℤ s.frame_count (count +ℤ pos frames))

-- How the first loop ends: out of rounds, or in round `k`, with the frame count at which a scan
-- was detected.
pub data Settled : Type 0 where
  timed_out : Settled
  found : ℕ → Option ℤ → Settled

abbrev pub detect : Option ℤ → Autofocus → Option ℤ
detect (some count) s = some count
detect none s = if is_scan s.aa_af_state then some s.frame_count else none

unfoldable pub settle_loop : ℕ → (ℕ → Autofocus) → ℤ → ℕ → Option ℤ → Settled
settle_loop zero seen count k scan = timed_out
settle_loop (suc left) seen count k scan = elim (has_passed count settle_frames (seen k)) [
  | true ↦ found k scan
  | false ↦ settle_loop left seen count (k + 1) (detect scan (seen k))
]

-- `for (i = 0; AUTOFOCUS_TOTAL_WATING_TIME_LOCK_AF; i++)`
unfoldable pub skip_loop : ℕ → (ℕ → Autofocus) → ℤ → ℕ → Option ℕ
skip_loop zero seen count k = none
skip_loop (suc fuel) seen count k = elim (has_passed count skip_frames (seen k)) [
  | true ↦ some k
  | false ↦ skip_loop fuel seen count (k + 1)
]

-- The rounds waited until the lock is set.
unfoldable pub lock_wait : ℕ → Settled → (ℕ → Autofocus) → Option ℕ
lock_wait fuel timed_out seen = some lock_rounds
lock_wait fuel (found k none) seen = some k
lock_wait fuel (found k (some count)) seen = skip_loop fuel seen count k

abbrev pub set_lock : Option ℕ → Autofocus → Option Autofocus
set_lock none last = none
set_lock (some k) last = some (record last { flag_autofocus_lock = true })

-- With no need to wait, nothing moves between the stop and the lock.
unfoldable pub lock_autofocus : ℕ → Autofocus → (ℕ → Autofocus) → Autofocus → Option Autofocus
lock_autofocus fuel s seen last =
    let t = stop_autofocus s in
    if may_move t.aa_af_state
    then set_lock (lock_wait fuel (settle_loop lock_rounds seen t.frame_count 0 none) seen) last
    else set_lock (some 0) t
