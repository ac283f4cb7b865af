-- ===== src/Camera/Flash/Lamp.antt =====
-- What the callback before the 3A block asks of the lamp.
use android_hardware_samsung.Common.{◌≡◌, ◌≢◌, ◌⊎◌, ◌↔◌, arith}
use android_hardware_samsung.Camera.Shot.{AeState, LampMode, Control, Shot}
use android_hardware_samsung.Camera.Flash.State.{Flash, Req, Status, Step}
use android_hardware_samsung.Camera.Flash.Before.{
  flash_sequence, count_step_error, before_on, before_required, before_not_needed, before_auto,
  before_req, before_cancel, before_step, func_3a_before,
}

-- When the main flash has to fire: flash is asked for, and the main flash starts or goes on.
pub record IsFiring (s : Flash) : Type 0 where
  pub not_cancelled : s.flash_step ≢ Step.cancel
  pub wanted :
      (s.flash_req ≡ Req.on) ⊎ ((s.flash_req ≡ Req.auto) × (s.ae_state ≡ AeState.flash_required))
  pub stage :
      ((s.flash_status ≡ Status.main_ready) × (s.flash_step ≡ Step.main_start))
      ⊎ ((s.flash_status ≡ Status.main_on) ⊎ (s.flash_status ≡ Status.main_wait))

fires_only :
    (s : Flash) (shot : Shot)
    → shot.ctl.flash_mode ≢ LampMode.single
    → (func_3a_before s shot).1.ctl.flash_mode ≡ LampMode.single
    → IsFiring s
unfolding func_3a_before before_step before_req before_on before_auto before_required flash_sequence
    count_step_error before_not_needed before_cancel
fires_only s shot h e = ground arith

fires_if :
    (s : Flash) (shot : Shot)
    → IsFiring s
    → (func_3a_before s shot).1.ctl.flash_mode ≡ LampMode.single
unfolding func_3a_before before_step before_req before_on before_auto before_required flash_sequence
    count_step_error before_not_needed before_cancel
fires_if s shot h = ground arith

-- On a frame that did not ask for it already, the single main flash is asked for exactly when no
-- cancel is pending, flash is requested (ON, or AUTO in the AE state FLASH_REQUIRED), and the
-- status is MAIN_READY with step MAIN_START, MAIN_ON or MAIN_WAIT.
pub fires_iff :
    (s : Flash) (shot : Shot)
    → shot.ctl.flash_mode ≢ LampMode.single
    → ((func_3a_before s shot).1.ctl.flash_mode ≡ LampMode.single) ↔ IsFiring s
fires_iff s shot h = (fires_only s shot h, fires_if s shot)

-- A dark lamp has no power and no time, a lit one has both.
abbrev pub IsCoherent : Control → Type 0
IsCoherent c =
    (c.flash_mode ≡ LampMode.off) × (c.firing_time ≡ 0) × (c.firing_power ≡ 0)
    ⊎ (c.flash_mode ≢ LampMode.off) × (c.firing_time ≢ 0) × (c.firing_power ≢ 0)

-- The callback keeps the lamp's three fields coherent, whatever the state: a lamp that is off has
-- firing time and power 0, any other has neither 0.
pub func_3a_before-IsCoherent :
    (s : Flash) (shot : Shot) → IsCoherent shot.ctl → IsCoherent (func_3a_before s shot).1.ctl
unfolding func_3a_before before_step before_req before_on before_auto before_required flash_sequence
    count_step_error before_not_needed before_cancel
func_3a_before-IsCoherent s shot h = ground arith
