-- ===== src/Camera/Autofocus/Locking.antt =====
-- `lockAutofocus` against the frames that arrive while it waits.
use android_hardware_samsung.Common.{
  ℕ, zero, suc, ◌+◌, ◌≡◌, Bool, true, false, Option, some, none, inl, inr, Bool-cases, refl,
}
use android_hardware_samsung.Common.Int.{ℤ}
use android_hardware_samsung.Camera.Autofocus.State.{Autofocus}
use android_hardware_samsung.Camera.Autofocus.Setters.{stop_autofocus}
use android_hardware_samsung.Camera.Autofocus.Lock.{
  lock_rounds, settle_frames, skip_frames, is_scan, may_move, has_passed, Settled, timed_out, found,
  detect, settle_loop, skip_loop, lock_wait, lock_autofocus,
}

-- No scan is seen, so the first loop hands none on.
abbrev NoScan : Settled → Type 0
NoScan timed_out = Unit {0}
NoScan (found k scan) = scan ≡ none

settle-NoScan :
    (left : ℕ) (seen : ℕ → Autofocus) (count : ℤ) (k : ℕ)
    → ((j : ℕ) → is_scan (seen j).aa_af_state ≡ false)
    → NoScan (settle_loop left seen count k none)
unfolding settle_loop
settle-NoScan zero seen count k h = tt
settle-NoScan (suc left) seen count k h =
    go (has_passed count settle_frames (seen k)) (detect none (seen k)) (rw (h k))
      (settle-NoScan left seen count (k + 1) h)
  where
    go :
        (b : Bool) (d : Option ℤ)
        → d ≡ none
        → NoScan (settle_loop left seen count (k + 1) none)
        → NoScan (elim b [ true ↦ found k none | false ↦ settle_loop left seen count (k + 1) d ])
    go true d e ih = refl
    go false d e ih = rw e ih

wait-NoScan :
    (fuel : ℕ) (r : Settled) (seen : ℕ → Autofocus)
    → NoScan r
    → (k : ℕ) × (lock_wait fuel r seen ≡ some k)
unfolding lock_wait
wait-NoScan fuel timed_out seen h = (lock_rounds, refl)
wait-NoScan fuel (found k scan) seen h = (k, rw h)

-- Where no scan is seen while it waits, `lockAutofocus` returns without entering its second loop
-- (no fuel is needed), however the frames arrive, and the focus is locked.
pub lock_autofocus_returns :
    (s : Autofocus) (seen : ℕ → Autofocus) (last : Autofocus)
    → ((j : ℕ) → is_scan (seen j).aa_af_state ≡ false)
    → (r : Autofocus) × (lock_autofocus 0 s seen last ≡ some r) × (r.flag_autofocus_lock ≡ true)
unfolding lock_autofocus
lock_autofocus_returns s seen last h =
    let (k, e) =
      wait-NoScan 0 _ seen (settle-NoScan lock_rounds seen (stop_autofocus s).frame_count 0 h) in
    elim (Bool-cases (may_move (stop_autofocus s).aa_af_state)) [
      | inl m ↦ (record last { flag_autofocus_lock = true }, rw (m, e), refl)
      | inr m ↦ (record (stop_autofocus s) { flag_autofocus_lock = true }, rw m, refl)
    ]

skip_never :
    (fuel : ℕ) (seen : ℕ → Autofocus) (count : ℤ) (k : ℕ)
    → ((j : ℕ) → has_passed count skip_frames (seen j) ≡ false)
    → skip_loop fuel seen count k ≡ none
unfolding skip_loop
skip_never zero seen count k h = refl
skip_never (suc fuel) seen count k h = rw (h k, skip_loop) (skip_never fuel seen count (k + 1) h)

settle_two :
    (left : ℕ) (seen : ℕ → Autofocus) (count : ℤ)
    → is_scan (seen 0).aa_af_state ≡ true
    → has_passed count settle_frames (seen 0) ≡ false
    → has_passed count settle_frames (seen 1) ≡ true
    → settle_loop (suc (suc left)) seen count 0 none ≡ found 1 (some (seen 0).frame_count)
unfolding settle_loop
settle_two left seen count scan first second =
    rw (first, settle_loop) (rw (second, settle_loop) (rw scan))

-- Where a scan is seen in the first look, the third frame has come by the second look, and the
-- sixth never comes, `lockAutofocus` does not return, however long it runs: its second loop has
-- no bound on the waiting, although it warns of a timeout behind it.
pub lock_autofocus_hangs :
    (fuel : ℕ) (s : Autofocus) (seen : ℕ → Autofocus) (last : Autofocus)
    → may_move s.aa_af_state ≡ true
    → is_scan (seen 0).aa_af_state ≡ true
    → has_passed s.frame_count settle_frames (seen 0) ≡ false
    → has_passed s.frame_count settle_frames (seen 1) ≡ true
    → ((j : ℕ) → has_passed (seen 0).frame_count skip_frames (seen j) ≡ false)
    → lock_autofocus fuel s seen last ≡ none
unfolding lock_autofocus stop_autofocus lock_wait
lock_autofocus_hangs fuel s seen last m scan first second never =
    rw (m, settle_two 299998 seen s.frame_count scan first second)
      (rw (lock_wait, skip_never fuel seen (seen 0).frame_count 1 never))
