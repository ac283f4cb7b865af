-- ===== src/Camera/Autofocus/Tests.antt =====
-- The focus activity at concrete inputs.
use android_hardware_samsung.Common.{
  ℕ, ◌<◌, ◌≡◌, inl, inr, true, some, List, [], ◌∷◌, replicate, refl, ltb, arith, if◌then◌else◌,
}
use android_hardware_samsung.Common.Int.{pos}
use android_hardware_samsung.Camera.Shot.{
  AeMode, AeFlashMode, AwbMode, AfMode, AfState, AeState, LampMode, Shot,
}
use android_hardware_samsung.Camera.Autofocus.State.{Mode, Step, Rect2, Autofocus, new}
use android_hardware_samsung.Camera.Autofocus.Frames.{
  get_current_state, mode_to_af_mode, regions_for, before_request, before_start, before_step,
  func_3a_before, func_3a_after,
}
use android_hardware_samsung.Camera.Autofocus.Setters.{set_autofocus_mode, start_autofocus}
use android_hardware_samsung.Camera.Autofocus.Result.{get_autofocus_result}
use android_hardware_samsung.Camera.Autofocus.Lock.{lock_autofocus}
use android_hardware_samsung.Camera.Autofocus.Runs.{frame, frames, is_run, start_autofocus_runs}
use android_hardware_samsung.Camera.Autofocus.Answers.{
  IsFocused, get_autofocus_result_sound, get_autofocus_result_ended,
}
use android_hardware_samsung.Camera.Autofocus.Locking.{lock_autofocus_returns}

abbrev no_area : Rect2
no_area = record { x1 = pos 0; y1 = pos 0; x2 = pos 0; y2 = pos 0 }

abbrev shot : Shot
shot = record {
  ctl = record {
    ae_mode = AeMode.center;
    ae_flash_mode = AeFlashMode.off;
    awb_mode = AwbMode.wb_auto;
    af_mode = AfMode.auto;
    af_trigger = 0;
    af_regions = [];
    flash_mode = LampMode.off;
    firing_time = 0;
    firing_power = 0;
  };
  dm = record {
    frame_count = 7;
    ae_state = AeState.converged;
    ae_flash_mode = AeFlashMode.off;
    af_state = AfState.active_scan;
    decision = 0;
    flash_ready = 0;
    flash_off_ready = 0;
    firing_stable = 0;
  };
}

abbrev six : List (Shot × Shot)
six = replicate 6 (shot, shot)

-- The lens starts at infinity without a call of `startAutofocus`.
first_frames :
    (frames (new no_area) ((shot, shot) ∷ (shot, shot) ∷ [])).autofocus_step ≡ Step.scanning
unfolding frames frame func_3a_before func_3a_after before_step before_request before_start
    mode_to_af_mode new regions_for
first_frames = refl

start_autofocus_runs_example :
    let t = frames (start_autofocus (set_autofocus_mode Mode.touch (new no_area)).0) six in
    (t.auto_focus_mode ≡ Mode.touch) × (is_run t.autofocus_step ≡ true)
start_autofocus_runs_example =
    start_autofocus_runs Mode.touch (new no_area) six refl (λ e. cc) (omega arith)

abbrev starting : Autofocus
starting = record (new no_area) { autofocus_step = Step.start }

-- A run in AUTOFOCUS_MODE_AUTO that ends, in focus, at look 5.
abbrev running : ℕ → Autofocus
running k = record (new no_area) {
  flag_autofocus_start = true;
  interenal_auto_focus_mode = Mode.auto;
  autofocus_step = if ltb k 5 then Step.start_scanning else Step.done;
  aa_af_state = AfState.acquired_focus;
}

running_true : get_autofocus_result running ≡ true
unfolding get_current_state
running_true =
    get_autofocus_result_ended running 5 (omega arith) (λ j h. ground arith) (inr (refl, inl refl))

get_autofocus_result_sound_example : (j : ℕ) × (j < 300) × IsFocused (running j)
get_autofocus_result_sound_example = get_autofocus_result_sound running running_true

lock_autofocus_returns_example :
    (r : Autofocus) × (lock_autofocus 0 (running 0) running (running 9) ≡ some r)
    × (r.flag_autofocus_lock ≡ true)
lock_autofocus_returns_example = lock_autofocus_returns (running 0) running (running 9) (λ j. refl)

-- A scan at frame 0, and no frame beyond the third.
abbrev stalled : ℕ → Autofocus
stalled k = record (new no_area) {
  aa_af_state = AfState.active_scan;
  frame_count = if ltb k 1 then pos 0 else pos 3;
}
