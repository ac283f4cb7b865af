-- ===== src/Camera/Autofocus/Result.antt =====
-- `getAutofocusResult` of libcamera/ExynosCameraActivityAutofocus.cpp. Other threads move the
-- activity while the caller sleeps: `seen k` is the activity at the k-th round of the loop, which
-- reads it once. Logging is left out, with the variable that only the log reads.
use android_hardware_samsung.Common.{ℕ, zero, suc, ◌+◌, ◌/◌, Bool, true, false, ◌||◌, if◌then◌else◌}
use android_hardware_samsung.Camera.Autofocus.State.{Mode, State, Step, Autofocus}
use android_hardware_samsung.Camera.Autofocus.Frames.{get_current_state}

-- AUTOFOCUS_TOTAL_WATING_TIME and AUTOFOCUS_WATING_TIME, in microseconds: the rounds of
-- `for (i = 0; i < total; i += wait)`.
abbrev pub waiting_time : ℕ
waiting_time = 10000

abbrev pub total_waiting_time : ℕ
total_waiting_time = 3000000

abbrev pub rounds : ℕ
rounds = total_waiting_time / waiting_time

abbrev pub is_scanning_or_done : Step → Bool
is_scanning_or_done Step.scanning = true
is_scanning_or_done Step.done = true
is_scanning_or_done _ = false

abbrev pub is_done : Step → Bool
is_done Step.done = true
is_done _ = false

-- Whether a round sets `flagCheckStep`.
abbrev pub checks_step : Mode → Step → Bool
checks_step Mode.infinity step = is_scanning_or_done step
checks_step Mode.fixed step = is_scanning_or_done step
checks_step Mode.continuous_video step = is_scanning_or_done step
checks_step Mode.continuous_picture step = is_scanning_or_done step
checks_step Mode.continuous_picture_macro step = is_scanning_or_done step
checks_step _ step = is_done step

abbrev pub is_success : State → Bool
is_success State.success = true
is_success _ = false

abbrev pub is_stop : Step → Bool
is_stop Step.stop = true
is_stop _ = false

abbrev pub is_picture : Mode → Bool
is_picture Mode.continuous_picture = true
is_picture _ = false

-- What a round that looks at the state does: give the result, or go on.
pub data Verdict : Type 0 where
  over : Bool → Verdict
  more : Verdict

abbrev pub verdict : State → Mode → Verdict
verdict State.none mode = if is_picture mode then Verdict.over true else Verdict.more
verdict State.scanning mode = Verdict.more
verdict State.success mode = Verdict.over true
verdict State.fail mode = Verdict.over false

-- One round, with `flagCheckStep` as it stands after the round's own test.
abbrev pub round : Autofocus → Bool → Verdict
round s check =
    if is_stop s.autofocus_step
    then Verdict.over (is_success (get_current_state s))
    else if check
    then verdict (get_current_state s) s.interenal_auto_focus_mode
    else Verdict.more

-- The rounds left, the number of this one, and `flagCheckStep`.
unfoldable pub result_loop : ℕ → (ℕ → Autofocus) → ℕ → Bool → Bool
result_loop zero seen k check = false
result_loop (suc left) seen k check =
    let check' = check || checks_step (seen k).interenal_auto_focus_mode (seen k).autofocus_step in
    elim (round (seen k) check') [
      | Verdict.over result ↦ result
      | Verdict.more ↦ result_loop left seen (k + 1) check'
    ]

unfoldable pub get_autofocus_result : (ℕ → Autofocus) → Bool
get_autofocus_result seen = result_loop rounds seen 0 false
