-- ===== src/Camera/Flash/Waits.antt =====
-- The waiting loops of libcamera/ExynosCameraActivityFlash.cpp. Another thread moves the status
-- while the caller sleeps: `seen k` is the activity at the k-th test of the loop, and `last` the
-- activity when the loop has been left. Each test reads one snapshot. The loops take fuel, and
-- `none` means that it ran out.
use android_hardware_samsung.Common.{
  ℕ, zero, suc, ◌+◌, ◌*◌, ◌/◌, ◌%◌, ◌^◌, Bool, true, false, not, ◌&&◌, ◌||◌, ltb, leb, Option, none,
  some, if◌then◌else◌,
}
use android_hardware_samsung.Common.Int.{pos, ltb_ℤ}
use android_hardware_samsung.Camera.Flash.State.{Flash, Status, status_value, is_pre_start}

-- FLASH_WAITING_SLEEP_TIME and the limits, in microseconds.
abbrev pub sleep_time : ℕ
sleep_time = 15000

abbrev pub max_waiting_time : ℕ
max_waiting_time = 1000000

abbrev pub max_ae_done_waiting_time : ℕ
max_ae_done_waiting_time = 3000000

abbrev pub max_pre_done_waiting_time : ℕ
max_pre_done_waiting_time = 4000000

-- `totalWaitingTime += FLASH_WAITING_SLEEP_TIME` on an `unsigned int`.
abbrev pub sleep : ℕ → ℕ
sleep total = (total + sleep_time) % 2 ^ 32

-- `while (busy && totalWaitingTime <= limit)`, from the k-th test on: the time waited.
unfoldable pub wait_while : ℕ → (ℕ → Bool) → ℕ → ℕ → ℕ → Option ℕ
wait_while zero busy limit k total = none
wait_while (suc fuel) busy limit k total =
    let rest = wait_while fuel busy limit (k + 1) (sleep total) in
    if busy k && leb total limit then rest else some total

-- Rounds enough for a limit.
abbrev pub fuel_for : ℕ → ℕ
fuel_for limit = limit / sleep_time + 2

abbrev pub is_before : Status → Flash → Bool
is_before bound s = ltb (status_value s.flash_status) (status_value bound)

-- The answer of the three loops that wait for a status.
unfoldable pub wait_for : Status → ℕ → (ℕ → Flash) → Flash → Option Bool
unfolding wait_while
wait_for bound limit seen last =
    elim (wait_while (fuel_for limit) (λ k. is_before bound (seen k)) limit 0 0) [
      | none ↦ none
      | some total ↦ some (not (is_before bound last || ltb limit total))
    ]

unfoldable pub wait_pre_done : (ℕ → Flash) → Flash → Option Bool
wait_pre_done seen last = wait_for Status.pre_done max_pre_done_waiting_time seen last

-- A timeout forces FLASH_STATUS_MAIN_READY.
abbrev pub force_main_ready : Flash → Bool → Flash × Bool
force_main_ready last true = (last, true)
force_main_ready last false = (record last { flash_status = Status.main_ready }, false)

unfoldable pub wait_main_ready : (ℕ → Flash) → Flash → Option (Flash × Bool)
wait_main_ready seen last = elim (wait_for Status.main_ready max_waiting_time seen last) [
  | none ↦ none
  | some answer ↦ some (force_main_ready last answer)
]

unfoldable pub wait_main_ready_short_touch : (ℕ → Flash) → Flash → Option (Flash × Bool)
wait_main_ready_short_touch seen last =
    elim (wait_for Status.main_ready (max_waiting_time * 4) seen last) [
      | none ↦ none
      | some answer ↦ some (force_main_ready last answer)
    ]

abbrev pub is_pre_on : Status → Bool
is_pre_on Status.pre_on = true
is_pre_on _ = false

abbrev pub is_pre_ae_done : Status → Bool
is_pre_ae_done Status.pre_ae_done = true
is_pre_ae_done _ = false

-- The body of the loop of `waitAeDone` leaves `status` at 0.
abbrev pub is_ae_busy : Flash → Bool
is_ae_busy s =
    (is_pre_on s.flash_status || is_pre_start s.flash_step)
    && not (not (ltb_ℤ (pos 0) s.ae_wait_max_count) || is_pre_ae_done s.flash_status)

-- The loop of `waitAeDone`: `status` and the time waited. The `break`s skip the sleep.
unfoldable pub wait_ae : ℕ → (ℕ → Flash) → ℕ → ℕ → Option (Bool × ℕ)
wait_ae zero seen k total = none
wait_ae (suc fuel) seen k total =
    let rest = wait_ae fuel seen (k + 1) (sleep total) in
    if leb total max_ae_done_waiting_time
    then (if is_ae_busy (seen k) then rest else some (true, total))
    else some (false, total)

unfoldable pub wait_ae_done : (ℕ → Flash) → Option Bool
wait_ae_done seen = elim (wait_ae (fuel_for max_ae_done_waiting_time) seen 0 0) [
  | none ↦ none
  | some (status, total) ↦ some (not (not status || ltb max_ae_done_waiting_time total))
]
