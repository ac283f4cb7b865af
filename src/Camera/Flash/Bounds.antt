-- ===== src/Camera/Flash/Bounds.antt =====
-- The counters of the flash activity over the operations of Ops.
use android_hardware_samsung.Common.{◌≤◌, ◌≡◌, true, false, List, [], ◌∷◌, arith}
use android_hardware_samsung.Common.Int.{pos, negsuc, ◌≤ℤ◌}
use android_hardware_samsung.Camera.Shot.{AeState, Shot}
use android_hardware_samsung.Camera.Flash.State.{Flash, Status, Step, Req, new}
use android_hardware_samsung.Camera.Flash.Before.{
  Frame, flash_sequence, count_step_error, before_on, before_required, before_not_needed,
  before_auto, before_req, before_cancel, before_step, func_3a_before,
}
use android_hardware_samsung.Camera.Flash.After.{func_3a_after}
use android_hardware_samsung.Camera.Flash.Ops.{Op, before_3a, after_3a, flash_step, perform, run}

pub record IsBounded (s : Flash) : Type 0 where
  pub timeout : s.timeout_count ≤ 61
  pub main_wait : s.main_wait_count ≤ 1
  pub no_rcount : s.check_main_capture_rcount ≡ false
  pub no_fcount : s.check_main_capture_fcount ≡ false
  pub errors_low : negsuc 0 ≤ℤ s.flash_step_error_count
  pub errors_high : s.flash_step_error_count ≤ℤ pos 0
  pub waiting : s.waiting_count ≤ℤ pos 15
  pub ae_waiting : s.ae_wait_max_count ≤ℤ pos 25

new-IsBounded : IsBounded new
unfolding new
new-IsBounded = ground arith

flash_sequence-IsBounded :
    (status : Status) (s : Flash) (shot : Shot)
    → IsBounded s
    → IsBounded (flash_sequence status s shot).0
unfolding flash_sequence
flash_sequence-IsBounded Status.pre_ready s shot h = ground arith
flash_sequence-IsBounded status s shot h = ground arith

count_step_error-IsBounded : (f : Frame) → IsBounded f.0 → IsBounded (count_step_error f).0
unfolding count_step_error
count_step_error-IsBounded f h = ground arith

before_on-IsBounded :
    (status : Status) (s : Flash) (shot : Shot)
    → IsBounded s
    → IsBounded (before_on status s shot).0
unfolding before_on
before_on-IsBounded Status.off s shot h = ground arith
before_on-IsBounded status s shot h = ground (arith, flash_sequence-IsBounded status s shot)

before_required-IsBounded :
    (status : Status) (s : Flash) (shot : Shot)
    → IsBounded s
    → IsBounded (before_required status s shot).0
unfolding before_required
before_required-IsBounded Status.off s shot h = ground arith
before_required-IsBounded status s shot h = ground (arith, flash_sequence-IsBounded status s shot)

before_auto-IsBounded :
    (state : AeState) (s : Flash) (shot : Shot)
    → IsBounded s
    → IsBounded (before_auto state s shot).0
unfolding before_auto before_not_needed
before_auto-IsBounded AeState.flash_required s shot h =
    count_step_error-IsBounded (before_required s.flash_status t shot)
      (before_required-IsBounded s.flash_status t shot (ground arith))
  where
    t : Flash
    t = record s { is_need_flash = true }
before_auto-IsBounded AeState.inactive s shot h = ground arith
before_auto-IsBounded state s shot h = ground (arith, count_step_error-IsBounded (s, shot))

before_req-IsBounded :
    (req : Req) (s : Flash) (shot : Shot) → IsBounded s → IsBounded (before_req req s shot).0
unfolding before_req
before_req-IsBounded Req.auto s shot h = before_auto-IsBounded s.ae_state s shot h
before_req-IsBounded Req.on s shot h =
    count_step_error-IsBounded (before_on s.flash_status t shot)
      (before_on-IsBounded s.flash_status t shot (ground arith))
  where
    t : Flash
    t = record s { is_need_flash = true }
before_req-IsBounded req s shot h = ground (arith, count_step_error-IsBounded (s, shot))

before_step-IsBounded :
    (step : Step) (s : Flash) (shot : Shot) → IsBounded s → IsBounded (before_step step s shot).0
unfolding before_step before_cancel
before_step-IsBounded Step.cancel s shot h = ground arith
before_step-IsBounded step s shot h = before_req-IsBounded s.flash_req s shot h

func_3a_before-IsBounded :
    (s : Flash) (shot : Shot) → IsBounded s → IsBounded (func_3a_before s shot).0
unfolding func_3a_before
func_3a_before-IsBounded s shot h = before_step-IsBounded s.flash_step _ shot (ground arith)

func_3a_after-IsBounded : (s : Flash) (shot : Shot) → IsBounded s → IsBounded (func_3a_after s shot)
unfolding func_3a_after
func_3a_after-IsBounded s shot h = ground arith

perform-IsBounded : (op : Op) (s : Flash) → IsBounded s → IsBounded (perform op s)
unfolding perform
perform-IsBounded (before_3a shot) s h = func_3a_before-IsBounded s shot h
perform-IsBounded (after_3a shot) s h = func_3a_after-IsBounded s shot h
perform-IsBounded (flash_step step) s h = ground arith
perform-IsBounded op s h = ground arith

run-IsBounded : (ops : List Op) (s : Flash) → IsBounded s → IsBounded (run ops s)
unfolding run
run-IsBounded [] s h = h
run-IsBounded (op ∷ ops) s h = run-IsBounded ops (perform op s) (perform-IsBounded op s h)

-- Whatever callbacks and calls, in whatever order, follow the constructor: `m_timeoutCount` stays
-- at most 61 and `m_mainWaitCount` at most 1, `m_flashStepErrorCount` is -1 or 0, the two
-- `m_checkMainCapture…` flags are false, `m_waitingCount` is at most 15 and `m_aeWaitMaxCount` at
-- most 25.
pub reachable-IsBounded : (ops : List Op) → IsBounded (run ops new)
reachable-IsBounded ops = run-IsBounded ops new new-IsBounded
