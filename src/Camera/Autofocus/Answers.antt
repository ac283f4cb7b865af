-- ===== src/Camera/Autofocus/Answers.antt =====
-- The answer of `getAutofocusResult`.
use android_hardware_samsung.Common.{
  ℕ, zero, suc, ◌+◌, ◌<◌, ◌≡◌, ◌⊎◌, Bool, true, false, ◌||◌, refl, arith,
}
use android_hardware_samsung.Camera.Autofocus.State.{Mode, State, Step, Autofocus}
use android_hardware_samsung.Camera.Autofocus.Frames.{get_current_state}
use android_hardware_samsung.Camera.Autofocus.Result.{
  Verdict, round, rounds, checks_step, is_success, result_loop, get_autofocus_result,
}

-- A look that justifies the answer "in focus".
abbrev pub IsFocused : Autofocus → Type 0
IsFocused s =
    (get_current_state s ≡ State.success)
    ⊎ ((get_current_state s ≡ State.none) × (s.interenal_auto_focus_mode ≡ Mode.continuous_picture))

abbrev is_over : Verdict → Bool
is_over (Verdict.over b) = true
is_over Verdict.more = false

round-IsFocused : (s : Autofocus) (check : Bool) → round s check ≡ Verdict.over true → IsFocused s
round-IsFocused s check e = ground arith

loop-IsFocused :
    (left : ℕ) (seen : ℕ → Autofocus) (k : ℕ) (check : Bool)
    → result_loop left seen k check ≡ true
    → (j : ℕ) × (j < k + left) × IsFocused (seen j)
unfolding result_loop
loop-IsFocused zero seen k check e = cc
loop-IsFocused (suc left) seen k check e =
    go (round (seen k) check') refl e (loop-IsFocused left seen (k + 1) check')
  where
    check' : Bool
    check' = check || checks_step (seen k).interenal_auto_focus_mode (seen k).autofocus_step

    go :
        (v : Verdict)
        → round (seen k) check' ≡ v
        → (elim v [ Verdict.over r ↦ r | Verdict.more ↦ result_loop left seen (k + 1) check' ])
          ≡ true
        → (result_loop left seen (k + 1) check' ≡ true
            → (j : ℕ) × (j < k + 1 + left) × IsFocused (seen j))
        → (j : ℕ) × (j < k + suc left) × IsFocused (seen j)
    go (Verdict.over true) p q ih = (k, omega arith, round-IsFocused (seen k) check' p)
    go (Verdict.over false) p q ih = cc
    go Verdict.more p q ih = let (j, l, w) = ih q in (j, omega arith, w)

-- `getAutofocusResult` answers true only if one of its 300 looks found the focus acquired, or
-- found no focus state at all in AUTOFOCUS_MODE_CONTINUOUS_PICTURE.
pub get_autofocus_result_sound :
    (seen : ℕ → Autofocus)
    → get_autofocus_result seen ≡ true
    → (j : ℕ) × (j < 300) × IsFocused (seen j)
unfolding get_autofocus_result
get_autofocus_result_sound seen e = loop-IsFocused rounds seen 0 false e

-- The run has not come so far that a look is decided.
abbrev pub is_early : Step → Bool
is_early Step.stop = false
is_early Step.scanning = false
is_early Step.done = false
is_early _ = true

-- A run that has ended, or that was stopped.
abbrev pub IsEnded : Autofocus → Type 0
IsEnded s =
    (s.autofocus_step ≡ Step.stop)
    ⊎ ((s.autofocus_step ≡ Step.done)
        × ((get_current_state s ≡ State.success) ⊎ (get_current_state s ≡ State.fail)))

round_ended :
    (s : Autofocus) (check : Bool)
    → IsEnded s
    → round s (check || checks_step s.interenal_auto_focus_mode s.autofocus_step)
      ≡ Verdict.over (is_success (get_current_state s))
round_ended s check h = ground arith

round_early :
    (s : Autofocus)
    → is_early s.autofocus_step ≡ true
    → (checks_step s.interenal_auto_focus_mode s.autofocus_step ≡ false)
      × (round s false ≡ Verdict.more)
round_early s h = ground arith

loop_ended :
    (d : ℕ) (left : ℕ) (seen : ℕ → Autofocus) (k : ℕ)
    → d < left
    → ((j : ℕ) → j < k + d → is_early (seen j).autofocus_step ≡ true)
    → IsEnded (seen (k + d))
    → result_loop left seen k false ≡ is_success (get_current_state (seen (k + d)))
unfolding result_loop
loop_ended d zero seen k l early ended = absurd (omega arith)
loop_ended zero (suc left) seen k l early ended =
    let q : k + 0 ≡ k = omega arith in
    rw q (rw (round_ended (seen k) false (rw q at ended), result_loop))
loop_ended (suc d) (suc left) seen k l early ended =
    let (a, b) = round_early (seen k) (early k (omega arith)) in
    let q : k + suc d ≡ k + 1 + d = omega arith in
    rw q (
      rw (a, b, result_loop)
        (rw a (
          loop_ended d left seen (k + 1) (omega arith) (λ j h. early j (omega arith))
            (rw q at ended))))

-- Where the run ends, or is stopped, within the 300 looks of `getAutofocusResult`, after looks that
-- found it requested, starting or waiting for the scan: the answer is whether the focus was
-- acquired at that look.
pub get_autofocus_result_ended :
    (seen : ℕ → Autofocus) (k : ℕ)
    → k < 300
    → ((j : ℕ) → j < k → is_early (seen j).autofocus_step ≡ true)
    → IsEnded (seen k)
    → get_autofocus_result seen ≡ is_success (get_current_state (seen k))
unfolding get_autofocus_result
get_autofocus_result_ended seen k l early ended =
    let q : 0 + k ≡ k = omega arith in
    rw (← q) (loop_ended k rounds seen 0 l (λ j h. early j (omega arith)) (rw (← q) at ended))
