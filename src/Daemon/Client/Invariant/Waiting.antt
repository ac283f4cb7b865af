-- ===== src/Daemon/Client/Invariant/Waiting.antt =====
-- The wait for notifications keeps what the library names covered.
use android_hardware_samsung.Common.{ℕ, ◌≡◌, Option, some, List, [], ◌∷◌, ◌==◌, refl, arith}
use android_hardware_samsung.Daemon.Driver.Wire.{Read, received, socket_error}
use android_hardware_samsung.Daemon.Client.State.{
  Session, Device, Client, Env, resolve_device, resolve_session, at_session, remove_device,
}
use android_hardware_samsung.Daemon.Client.Wire.{SessionHandle}
use android_hardware_samsung.Daemon.Client.Pointers.{at_session_counts}
use android_hardware_samsung.Daemon.Client.Waiting.{
  set_error_info, is_whole, payload, drain, first_round, mc_wait_notification,
}
use android_hardware_samsung.Daemon.Client.Covered.{
  IsCovered, remove_device-IsCovered, at_device-IsCovered,
}
use android_hardware_samsung.Daemon.Client.Covers.{
  Covers, if-Covers, failed-Covers, not_null-Covers, check_device-Covers, check_session-Covers,
}

set_error_info-IsCovered :
    (h : SessionHandle) (err : ℕ) (d : Device) (s : Session) (c : Client)
    → resolve_device h.device_id c.devices ≡ some d
    → resolve_session h.session_id d.sessions ≡ some s
    → IsCovered c
    → IsCovered (set_error_info h err c)
set_error_info-IsCovered h err d s c e g i =
    let change = λ (x : Session). record x { last_err = err } in
    at_device-IsCovered h.device_id
      (λ x. record x { sessions = at_session h.session_id change x.sessions }) d c
      (set_error_info h err c) e refl (λ x. refl)
      (λ k. omega (arith, at_session_counts k h.session_id change d.sessions s g))
      (λ k. omega arith) i

drain-Covers :
    (h : SessionHandle) (rs : List Read) (d : Device) (s : Session) (c : Client)
    → resolve_device h.device_id c.devices ≡ some d
    → resolve_session h.session_id d.sessions ≡ some s
    → IsCovered c
    → Covers (drain h rs c)
unfolding drain
drain-Covers h [] d s c e g i = failed-Covers c i 0
drain-Covers h (r ∷ rs) d s c e g i =
    if-Covers (is_whole r) _ _
      (λ z.
        if-Covers (payload r == 0) _ _ (λ y. drain-Covers h rs d s c e g i)
          (λ y.
            failed-Covers (set_error_info h (payload r) c)
              (set_error_info-IsCovered h (payload r) d s c e g i) 21))
      (λ z. failed-Covers c i 0)

first_round-Covers :
    (env : Env) (h : SessionHandle) (rs : List Read) (d : Device) (s : Session) (c : Client)
    → resolve_device h.device_id c.devices ≡ some d
    → resolve_session h.session_id d.sessions ≡ some s
    → IsCovered c
    → Covers (first_round env h rs c)
unfolding first_round
first_round-Covers env h [] d s c e g i = failed-Covers c i 11
first_round-Covers env h (socket_error ∷ rs) d s c e g i = failed-Covers c i 2
first_round-Covers env h (received [] ∷ rs) d s c e g i =
    failed-Covers (remove_device env h.device_id c) (remove_device-IsCovered env h.device_id c i) 2
first_round-Covers env h (received (b ∷ bs) ∷ rs) d s c e g i =
    if-Covers (is_whole (received (b ∷ bs))) _ _
      (λ z. drain-Covers h (received (b ∷ bs) ∷ rs) d s c e g i) (λ z. failed-Covers c i 2)

pub wait-Covers :
    (env : Env) (session : Option SessionHandle) (rs : List Read) (c : Client)
    → IsCovered c
    → Covers (mc_wait_notification env session rs c)
unfolding mc_wait_notification
wait-Covers env session rs c i = not_null-Covers c i session _ (λ h e.
    check_device-Covers c i h.device_id _ (λ d f.
      check_session-Covers c i h.session_id d _ (λ s g. first_round-Covers env h rs d s c f g i)))
