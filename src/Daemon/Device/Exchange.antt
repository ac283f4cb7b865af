-- ===== src/Daemon/Device/Exchange.antt =====
-- One command and its answer.
use android_hardware_samsung.Common.{
  ℕ, zero, suc, ◌≡◌, ◌≢◌, ◌⊎◌, ◌↔◌, inl, inr, Bool, true, false, some, ◌∷◌, ◌++◌, refl, arith,
}
use android_hardware_samsung.Daemon.Device.State.{
  DrvResult, Command, nsiq, Device, World, Wait, Response, response_id, status_halt,
}
use android_hardware_samsung.Daemon.Device.Sessions.{notify}
use android_hardware_samsung.Daemon.Device.Commands.{
  healthy, check, wait_loop, wait_mcp_notification, exchange,
}

-- Waiting changes nothing but the fault, which it can only raise.
record Waited (d t : Device) : Type 0 where
  sessions : t.sessions ≡ d.sessions
  notifications : t.notifications ≡ d.notifications
  version : t.version_info ≡ d.version_info
  message : t.message ≡ d.message
  queues : t.queues ≡ d.queues
  linked : t.linked ≡ d.linked
  calls : t.calls ≡ d.calls

wait_loop-Waited : (counter k : ℕ) (w : World) (d : Device) → Waited d (wait_loop counter k w d).1
unfolding wait_loop
wait_loop-Waited zero k w d = ground arith
wait_loop-Waited (suc counter) k w d = ground (arith, wait_loop-Waited counter (suc k) w d)

healthy_device : (w : World) (r : Bool × Device) → (healthy w r).1 ≡ r.1
healthy_device w (false, d) = refl
healthy_device w (true, d) = refl

wait-Waited : (w : World) (d : Device) → Waited d (wait_mcp_notification w d).1
unfolding wait_mcp_notification
wait-Waited w d = rw (healthy_device w (wait_loop 5 0 w d)) (wait_loop-Waited 5 0 w d)

check_device : (cmd : Command) (r : Response) (b : Bool × Device) → (check cmd r b).1 ≡ b.1
check_device cmd r (false, d) = refl
check_device cmd r (true, d) = refl

-- What an exchange leaves of the device, whatever its result.
pub record Exchanged (cmd : Command) (w : World) (d t : Device) : Type 0 where
  pub sessions : t.sessions ≡ d.sessions
  pub notifications : t.notifications ≡ d.notifications ++ w.early
  pub version : t.version_info ≡ d.version_info
  pub message : t.message ≡ some cmd
  pub linked : t.linked ≡ d.linked
  pub calls : t.calls ≡ nsiq ∷ d.calls

-- Whatever the result of an exchange: the sessions, the version and the links are as before, the
-- early notifications are queued behind the others, the message is the command, and the secure
-- world has been called once.
pub exchange-Exchanged :
    (cmd : Command) (w : World) (d : Device) → Exchanged cmd w d (exchange cmd w d).1
unfolding exchange notify
exchange-Exchanged cmd w d =
    let sent = notify 0 (record d { message = some cmd }) in
    let asked = record sent { notifications = sent.notifications ++ w.early } in
    ground (arith, check_device cmd w.response (wait_mcp_notification w asked), wait-Waited w asked)

-- The wait `n`, the last of at most `counter` from `k` on, is answered, and those before it time
-- out without a halt.
abbrev pub AnsweredBy : ℕ → ℕ → World → Type 0
AnsweredBy zero k w = ⊥
AnsweredBy (suc counter) k w =
    (w.waits k ≡ Wait.answered)
    ⊎ (((status : ℕ) × (w.waits k ≡ Wait.timed_out status) × (status ≢ status_halt))
        × AnsweredBy counter (suc k) w)

wait_loop_only :
    (counter k : ℕ) (w : World) (d : Device)
    → (wait_loop counter k w d).0 ≡ true
    → (d.mc_fault ≡ false) × AnsweredBy counter k w
unfolding wait_loop
wait_loop_only zero k w d e = cc
wait_loop_only (suc counter) k w d e = go (w.waits k) refl (wait_loop_only counter (suc k) w d) e
  where
    go :
        (v : Wait)
        → w.waits k ≡ v
        → ((wait_loop counter (suc k) w d).0 ≡ true
            → (d.mc_fault ≡ false) × AnsweredBy counter (suc k) w)
        → (wait_loop (suc counter) k w d).0 ≡ true
        → (d.mc_fault ≡ false) × AnsweredBy (suc counter) k w
    go Wait.answered p ih e = ground arith
    go (Wait.timed_out status) p ih e =
        let f : (d.mc_fault ≡ false)
            × (status ≢ status_halt)
            × ((wait_loop counter (suc k) w d).0 ≡ true) =
          ground arith in
        (f.0, inr ((status, p, f.1), (ih f.2).1))

wait_loop_if :
    (counter k : ℕ) (w : World) (d : Device)
    → d.mc_fault ≡ false
    → AnsweredBy counter k w
    → (wait_loop counter k w d).0 ≡ true
unfolding wait_loop
wait_loop_if zero k w d f a = elim a [ ]
wait_loop_if (suc counter) k w d f (inl e) = ground arith
wait_loop_if (suc counter) k w d f (inr ((status, e, n), a)) =
    ground (arith, wait_loop_if counter (suc k) w d f a)

-- The secure world answers the command: the device has no fault, one of five waits is answered
-- and none before it finds MobiCore halted, both threads live, and the response has the
-- command's id and the result 0.
pub record IsAnswered (cmd : Command) (w : World) (d : Device) : Type 0 where
  pub no_fault : d.mc_fault ≡ false
  pub in_time : AnsweredBy 5 0 w
  pub irq_lives : w.irq_exiting ≡ false
  pub scheduler_lives : w.scheduler_exiting ≡ false
  pub same_command : w.response.rsp_id ≡ response_id cmd
  pub accepted : w.response.result ≡ 0

exchange_ok_only :
    (cmd : Command) (w : World) (d : Device)
    → (exchange cmd w d).0 ≡ DrvResult.ok
    → IsAnswered cmd w d
unfolding exchange wait_mcp_notification notify
exchange_ok_only cmd w d e =
    let sent = notify 0 (record d { message = some cmd }) in
    let asked = record sent { notifications = sent.notifications ++ w.early } in
    let t : ((wait_loop 5 0 w asked).0 ≡ true)
        × (w.irq_exiting ≡ false)
        × (w.scheduler_exiting ≡ false)
        × (w.response.rsp_id ≡ response_id cmd)
        × (w.response.result ≡ 0) =
      ground arith in
    let (f, a) = wait_loop_only 5 0 w asked t.0 in
    record {
      no_fault = f;
      in_time = a;
      irq_lives = t.1;
      scheduler_lives = t.2;
      same_command = t.3;
      accepted = t.4;
    }

exchange_ok_if :
    (cmd : Command) (w : World) (d : Device)
    → IsAnswered cmd w d
    → (exchange cmd w d).0 ≡ DrvResult.ok
unfolding exchange wait_mcp_notification notify
exchange_ok_if cmd w d a =
    let sent = notify 0 (record d { message = some cmd }) in
    let asked = record sent { notifications = sent.notifications ++ w.early } in
    let t : (wait_loop 5 0 w asked).0 ≡ true = wait_loop_if 5 0 w asked a.no_fault a.in_time in
    ground arith

-- An exchange succeeds exactly when the secure world answers the command: no fault before, one of
-- five waits answered with no halt before it, both threads alive, the response's id that of the
-- command and its result 0.
pub exchange_ok_iff :
    (cmd : Command) (w : World) (d : Device)
    → ((exchange cmd w d).0 ≡ DrvResult.ok) ↔ IsAnswered cmd w d
exchange_ok_iff cmd w d = (exchange_ok_only cmd w d, exchange_ok_if cmd w d)
