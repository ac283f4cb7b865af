-- ===== src/Camera/Flash/AeTimeout.antt =====
-- The waiting loop of `waitAeDone`.
use android_hardware_samsung.Common.{
  ℕ, zero, suc, ◌+◌, ◌*◌, ◌≤◌, ◌<◌, ◌≡◌, inl, inr, ◌↔◌, Bool, true, false, leb, some, Bool-cases,
  refl, arith,
}
use native.Mathlib.Decide.{dec_lt}
use android_hardware_samsung.Camera.Flash.State.{Flash}
use android_hardware_samsung.Camera.Flash.Waits.{
  sleep_time, sleep, fuel_for, max_ae_done_waiting_time, is_ae_busy, wait_ae, wait_ae_done,
}

-- One of the tests within the limit, from test `k` on, does not find the AE stage busy.
abbrev pub IsSeenDone : (ℕ → Flash) → ℕ → Type 0
IsSeenDone seen k =
    (j : ℕ) × (k ≤ j) × (j * sleep_time ≤ max_ae_done_waiting_time) × (is_ae_busy (seen j) ≡ false)

step_time :
    (k : ℕ)
    → k * sleep_time ≤ max_ae_done_waiting_time
    → sleep (k * sleep_time) ≡ (k + 1) * sleep_time
step_time k h = omega arith

later :
    (seen : ℕ → Flash) (k : ℕ)
    → is_ae_busy (seen k) ≡ true
    → IsSeenDone seen k
    → IsSeenDone seen (k + 1)
later seen k b (j, a, t, e) = elim (dec_lt k j) [
  | yes p ↦ (j, omega arith, t, e)
  | no p ↦ let q : j ≡ k = omega arith in cc
]

wait_ae_iff :
    (fuel : ℕ) (seen : ℕ → Flash) (k : ℕ)
    → k * sleep_time ≤ max_ae_done_waiting_time + sleep_time
    → max_ae_done_waiting_time + sleep_time < (k + fuel) * sleep_time
    → (b : Bool) × (total : ℕ) × (wait_ae fuel seen k (k * sleep_time) ≡ some (b, total))
      × ((b ≡ true) ↔ IsSeenDone seen k)
      × (b ≡ true → total ≤ max_ae_done_waiting_time)
unfolding wait_ae
wait_ae_iff zero seen k t f = absurd (omega arith)
wait_ae_iff (suc fuel) seen k t f =
    elim (Bool-cases (leb (k * sleep_time) max_ae_done_waiting_time)) [
      | inr late ↦ (
        false,
        k * sleep_time,
        rw late,
        (λ e. cc, λ (j, a, u, e). absurd (ground arith)),
        λ e. cc,
      )
      | inl early ↦ elim (Bool-cases (is_ae_busy (seen k))) [
        | inr idle ↦ (
          true,
          k * sleep_time,
          rw (early, idle),
          (λ e. (k, omega arith, ground arith, idle), λ w. refl),
          λ e. ground arith,
        )
        | inl busy ↦
            let (b, total, e, i, h) = wait_ae_iff fuel seen (k + 1) (ground arith) (omega arith) in
            (
              b,
              total,
              rw (early, busy, step_time k (ground arith)) e,
              (
                λ d. let (j, a, u, v) = i.0 d in (j, omega arith, u, v),
                λ w. i.1 (later seen k busy w),
              ),
              h,
            )
      ]
    ]

-- `waitAeDone` returns, whatever the other threads do. Its answer is true exactly when one of its
-- tests in the first 3 s finds that the pre-flash is not being exposed any more: the status has
-- left PRE_ON with no pre-start pending, or it is PRE_AE_DONE, or the frames allowed are used up.
pub wait_ae_done_iff :
    (seen : ℕ → Flash)
    → (b : Bool) × (wait_ae_done seen ≡ some b) × ((b ≡ true) ↔ IsSeenDone seen 0)
unfolding wait_ae_done
wait_ae_done_iff seen =
    let (b, total, e, i, h) =
      wait_ae_iff (fuel_for max_ae_done_waiting_time) seen 0 (omega arith) (omega arith) in
    (b, rw (e, wait_ae_done) (ground (arith)), i)
