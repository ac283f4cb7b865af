-- ===== src/Camera/Flash/Tests.antt =====
-- The flash activity at concrete inputs.
use android_hardware_samsung.Common.{
  ℕ, ◌≡◌, ◌↔◌, inl, Bool, true, false, some, List, [], ◌∷◌, replicate, refl, ltb, arith,
}
use android_hardware_samsung.Camera.Shot.{
  AeMode, AeFlashMode, AwbMode, AfMode, AfState, AeState, LampMode, Shot,
}
use android_hardware_samsung.Camera.Activity.{CallbackType, exec_function}
use android_hardware_samsung.Camera.Flash.State.{Flash, Req, Status, Step, new}
use android_hardware_samsung.Camera.Flash.Before.{
  flash_sequence, count_step_error, before_on, before_req, before_step, func_3a_before,
}
use android_hardware_samsung.Camera.Flash.After.{func_3a_after}
use android_hardware_samsung.Camera.Flash.Setters.{set_flash_step}
use android_hardware_samsung.Camera.Flash.Waits.{wait_pre_done, max_pre_done_waiting_time}
use android_hardware_samsung.Camera.Flash.Ops.{
  Op, flash_req, flash_step, before_3a, perform, run, flash_activity,
}
use android_hardware_samsung.Camera.Flash.Bounds.{IsBounded, reachable-IsBounded}
use android_hardware_samsung.Camera.Flash.Progress.{frames, frames_main_ready, frames_main_done}
use android_hardware_samsung.Camera.Flash.Cancel.{finish, IsCancelled, cancel_takes_effect}
use android_hardware_samsung.Camera.Flash.Lamp.{
  IsFiring, fires_iff, IsCoherent, func_3a_before-IsCoherent,
}
use android_hardware_samsung.Camera.Flash.Timeouts.{IsInTime, wait_pre_done_iff}

abbrev idle_shot : Shot
idle_shot = record {
  ctl = record {
    ae_mode = AeMode.center;
    ae_flash_mode = AeFlashMode.off;
    awb_mode = AwbMode.wb_auto;
    af_mode = AfMode.off;
    af_trigger = 0;
    af_regions = 0 ∷ 0 ∷ 0 ∷ 0 ∷ 1000 ∷ [];
    flash_mode = LampMode.off;
    firing_time = 0;
    firing_power = 0;
  };
  dm = record {
    frame_count = 7;
    ae_state = AeState.converged;
    ae_flash_mode = AeFlashMode.off;
    af_state = AfState.inactive;
    decision = 0;
    flash_ready = 0;
    flash_off_ready = 0;
    firing_stable = 0;
  };
}

abbrev asked : List Op
asked =
    flash_req Req.on ∷ before_3a idle_shot ∷ flash_step Step.pre_start ∷ before_3a idle_shot ∷ []

-- `new` with flash requested, at a status and a step.
abbrev at : Status → Step → Flash
at status step = record new { flash_req = Req.on; flash_status = status; flash_step = step }

asked_pre_on : (run asked new).flash_status ≡ Status.pre_on
unfolding run perform new before_step before_req before_on flash_sequence count_step_error
asked_pre_on = refl

-- A call with CALLBACK_TYPE_END repeats the callback before it.
end_repeats :
    exec_function flash_activity CallbackType.end
      (some CallbackType.isp_before)
      new
      (record { handle = 3; shot = idle_shot })
    ≡ (some CallbackType.isp_before, some (new, record { handle = 3; shot = idle_shot }))
unfolding exec_function flash_activity
end_repeats = refl

reachable-IsBounded_example : IsBounded (run asked new)
reachable-IsBounded_example = reachable-IsBounded asked

frames_main_ready_example :
    (frames (at Status.off Step.pre_start) (replicate 189 (idle_shot, idle_shot))).flash_status
    ≡ Status.main_ready
unfolding new
frames_main_ready_example =
    frames_main_ready (at Status.off Step.pre_start) (replicate 189 (idle_shot, idle_shot))
      (record {
        running = inl refl;
        started = refl;
        no_touch = refl;
        counted = omega arith;
        phase = refl;
      })
      (omega arith)

frames_main_done_example :
    (frames
      (at Status.main_ready Step.main_start)
      (replicate 67 (idle_shot, idle_shot))).flash_status
    ≡ Status.pre_ready
unfolding new
frames_main_done_example =
    frames_main_done (at Status.main_ready Step.main_start) (replicate 67 (idle_shot, idle_shot))
      (record {
        running = inl refl;
        started = refl;
        no_touch = refl;
        counted = omega arith;
        waited = omega arith;
        phase = refl;
      })
      (omega arith)

cancel_takes_effect_example :
    let t =
      finish
        (set_flash_step Step.cancel (at Status.main_on Step.main_start))
        (idle_shot ∷ idle_shot ∷ []) in
    IsCancelled
      (func_3a_before t idle_shot).1
      (func_3a_after (func_3a_before t idle_shot).0 idle_shot)
unfolding new
cancel_takes_effect_example =
    cancel_takes_effect (at Status.main_on Step.main_start) (idle_shot ∷ idle_shot ∷ []) idle_shot
      idle_shot refl

fires_iff_example :
    ((func_3a_before (at Status.main_ready Step.main_start) idle_shot).1.ctl.flash_mode
      ≡ LampMode.single)
    ↔ IsFiring (at Status.main_ready Step.main_start)
fires_iff_example = fires_iff (at Status.main_ready Step.main_start) idle_shot (λ e. cc)

func_3a_before-IsCoherent_example :
    IsCoherent (func_3a_before (at Status.main_on Step.main_start) idle_shot).1.ctl
func_3a_before-IsCoherent_example =
    func_3a_before-IsCoherent (at Status.main_on Step.main_start) idle_shot (ground arith)

-- The status reaches MAIN_READY after 20 sleeps.
abbrev seen : ℕ → Flash
seen k = at (elim (ltb k 20) [ true ↦ Status.pre_done | false ↦ Status.main_ready ]) Step.off

wait_pre_done_iff_example :
    (b : Bool) × (wait_pre_done seen (seen 20) ≡ some b)
    × ((b ≡ true) ↔ IsInTime Status.pre_done max_pre_done_waiting_time seen (seen 20))
wait_pre_done_iff_example = wait_pre_done_iff seen (seen 20)
