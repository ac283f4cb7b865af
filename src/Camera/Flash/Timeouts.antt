-- ===== src/Camera/Flash/Timeouts.antt =====
-- The waiting loops of the flash activity: `waitPreDone`, `waitMainReady` and its short-touch variant.
use android_hardware_samsung.Common.{
  ℕ, zero, suc, ◌+◌, ◌*◌, ◌≤◌, ◌<◌, ◌≡◌, ◌⊎◌, inl, inr, ◌↔◌, Bool, true, false, not, ◌&&◌, ◌||◌,
  ltb, leb, some, Bool-cases, refl, arith,
}
use native.Mathlib.Decide.{dec_lt}
use android_hardware_samsung.Camera.Flash.State.{Flash, Status}
use android_hardware_samsung.Camera.Flash.Waits.{
  sleep_time, sleep, wait_while, fuel_for, is_before, wait_for, wait_pre_done, wait_main_ready,
  wait_main_ready_short_touch, max_waiting_time, max_pre_done_waiting_time, force_main_ready,
}

-- The loop, entered at test `k`, has been left at test `n`.
record Left (busy : ℕ → Bool) (limit k n : ℕ) : Type 0 where
  after : k ≤ n
  in_time : n * sleep_time ≤ limit + sleep_time
  cause : (busy n ≡ false) ⊎ (limit < n * sleep_time)
  before : (j : ℕ) → k ≤ j → j < n → busy j ≡ true

step_time : (k : ℕ) → k * sleep_time ≤ 4000000 → sleep (k * sleep_time) ≡ (k + 1) * sleep_time
step_time k h = omega arith

stopped :
    (busy : ℕ → Bool) (limit k : ℕ)
    → k * sleep_time ≤ limit + sleep_time
    → (busy k && leb (k * sleep_time) limit) ≡ false
    → Left busy limit k k
stopped busy limit k t stop = record {
  after = omega arith;
  in_time = t;
  cause = ground arith;
  before = λ j a b. absurd (omega arith);
}

eq_of_bounds : (k j : ℕ) → k ≤ j → ¬ (k < j) → j ≡ k
eq_of_bounds k j a p = omega arith

extend :
    (busy : ℕ → Bool) (limit k n : ℕ)
    → busy k ≡ true
    → Left busy limit (k + 1) n
    → Left busy limit k n
extend busy limit k n b l = record {
  after = omega (arith, l.after);
  in_time = l.in_time;
  cause = l.cause;
  before = λ j a c. elim (dec_lt k j) [
    | yes p ↦ l.before j (omega arith) c
    | no p ↦ rw (eq_of_bounds k j a p) b
  ];
}

wait_while-Left :
    (fuel : ℕ) (busy : ℕ → Bool) (limit k : ℕ)
    → limit ≤ 4000000
    → k * sleep_time ≤ limit + sleep_time
    → limit + sleep_time < (k + fuel) * sleep_time
    → (n : ℕ) × (wait_while fuel busy limit k (k * sleep_time) ≡ some (n * sleep_time))
      × Left busy limit k n
unfolding wait_while
wait_while-Left zero busy limit k l t f = absurd (omega arith)
wait_while-Left (suc fuel) busy limit k l t f =
    elim (Bool-cases (busy k && leb (k * sleep_time) limit)) [
      | inr stop ↦ (k, rw stop, stopped busy limit k t stop)
      | inl go ↦
          let on : (busy k ≡ true) × (k * sleep_time ≤ limit) = ground arith in
          let (n, e, left) =
            wait_while-Left fuel busy limit (k + 1) l (omega arith) (omega arith) in
          (n, rw (go, step_time k (omega arith)) e, extend busy limit k n on.0 left)
    ]

-- The status was reached at a test of the loop within the limit, and still is at the end.
abbrev pub IsInTime : Status → ℕ → (ℕ → Flash) → Flash → Type 0
IsInTime bound limit seen last =
    ((k : ℕ) × (k * sleep_time ≤ limit) × (is_before bound (seen k) ≡ false))
    × (is_before bound last ≡ false)

Left-early :
    (busy : ℕ → Bool) (limit n k : ℕ)
    → Left busy limit 0 n
    → k * sleep_time ≤ limit
    → busy k ≡ false
    → ltb limit (n * sleep_time) ≡ false
Left-early busy limit n k left t b = elim (dec_lt k n) [
  | yes p ↦ cc (left.before k (omega arith) p)
  | no p ↦ ground arith
]

answer_iff :
    (bound : Status) (limit : ℕ) (seen : ℕ → Flash) (last : Flash) (n : ℕ)
    → Left (λ k. is_before bound (seen k)) limit 0 n
    → (not (is_before bound last || ltb limit (n * sleep_time)) ≡ true)
      ↔ IsInTime bound limit seen last
answer_iff bound limit seen last n left = (
  λ e. ((n, ground arith, ground arith), ground arith),
  λ w. ground (arith, Left-early (λ k. is_before bound (seen k)) limit n w.0.0 left w.0.1 w.0.2),
)

wait_for_iff :
    (bound : Status) (limit : ℕ) (seen : ℕ → Flash) (last : Flash)
    → limit ≤ 4000000
    → (b : Bool) × (wait_for bound limit seen last ≡ some b)
      × ((b ≡ true) ↔ IsInTime bound limit seen last)
unfolding wait_for
wait_for_iff bound limit seen last l =
    let (n, e, left) =
      wait_while-Left (fuel_for limit) (λ k. is_before bound (seen k)) limit 0 l (omega arith)
        (omega arith) in
    (
      not (is_before bound last || ltb limit (n * sleep_time)),
      rw (e, wait_for),
      answer_iff bound limit seen last n left,
    )

-- `waitPreDone` returns, whatever the other threads do. Its answer is true exactly when one of
-- its tests in the first 4 s found a status of PRE_DONE or later, and the status is that at the
-- end too.
pub wait_pre_done_iff :
    (seen : ℕ → Flash) (last : Flash)
    → (b : Bool) × (wait_pre_done seen last ≡ some b)
      × ((b ≡ true) ↔ IsInTime Status.pre_done max_pre_done_waiting_time seen last)
unfolding wait_pre_done
wait_pre_done_iff seen last =
    wait_for_iff Status.pre_done max_pre_done_waiting_time seen last (omega arith)

forced : (last : Flash) (b : Bool) → (force_main_ready last b).1 ≡ b
forced last true = refl
forced last false = refl

forced_late :
    (last : Flash) (b : Bool)
    → (b ≡ true → is_before Status.main_ready last ≡ false)
    → is_before Status.main_ready (force_main_ready last b).0 ≡ false
forced_late last true h = h refl
forced_late last false h = refl

-- `waitMainReady` and `waitMainReadyShortTouch` return, whatever the other threads do, and leave
-- a status of MAIN_READY or later. The answer is true exactly when one of the tests in the first
-- second (in the first 4 s for a short touch) found such a status, and the status is that at the
-- end without being forced.
pub wait_main_ready_iff :
    (seen : ℕ → Flash) (last : Flash)
    → ((r : Flash × Bool) × (wait_main_ready seen last ≡ some r)
        × ((r.1 ≡ true) ↔ IsInTime Status.main_ready max_waiting_time seen last)
        × (is_before Status.main_ready r.0 ≡ false))
      × ((r : Flash × Bool) × (wait_main_ready_short_touch seen last ≡ some r)
          × ((r.1 ≡ true) ↔ IsInTime Status.main_ready (max_waiting_time * 4) seen last)
          × (is_before Status.main_ready r.0 ≡ false))
unfolding wait_main_ready wait_main_ready_short_touch
wait_main_ready_iff seen last =
    let (b, e, i) = wait_for_iff Status.main_ready max_waiting_time seen last (omega arith) in
    let (c, f, j) = wait_for_iff Status.main_ready (max_waiting_time * 4) seen last (omega arith) in
    (
      (
        force_main_ready last b,
        rw (e, wait_main_ready),
        rw (forced last b) i,
        forced_late last b (λ t. (i.0 t).1),
      ),
      (
        force_main_ready last c,
        rw (f, wait_main_ready_short_touch),
        rw (forced last c) j,
        forced_late last c (λ t. (j.0 t).1),
      ),
    )
