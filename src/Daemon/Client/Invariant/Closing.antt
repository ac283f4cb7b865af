-- ===== src/Daemon/Client/Invariant/Closing.antt =====
-- The calls that close or only ask keep what the library names covered.
use android_hardware_samsung.Common.{
  ℕ, ◌≡◌, Bool, Option, some, [], ◌∷◌, ◌==◌, refl, ap, ◌∙◌, take, arith,
}
use android_hardware_samsung.Daemon.Driver.Wire.{get_word}
use android_hardware_samsung.Daemon.Client.State.{
  Session, Device, Client, Env, resolve_device, resolve_session, remove_device, delete_session,
}
use android_hardware_samsung.Daemon.Client.Wire.{SessionHandle, words}
use android_hardware_samsung.Daemon.Client.Counts.{count-unregister_all}
use android_hardware_samsung.Daemon.Client.Pointers.{without_session_counts}
use android_hardware_samsung.Daemon.Client.Closing.{
  has_sessions, mc_close_device, without_session, remove_session, mc_close_session, mc_notify,
  mc_get_session_error_code, mc_get_mobicore_version,
}
use android_hardware_samsung.Daemon.Client.Covered.{
  IsCovered, remove_device-IsCovered, at_device-IsCovered,
}
use android_hardware_samsung.Daemon.Client.Covers.{
  Covers, if-Covers, remove_dead-Covers, failed-Covers, reply-Covers, not_null-Covers,
  check_device-Covers, check_device_closed-Covers, check_session-Covers, send-Covers, recv-Covers,
}

pub close_device-Covers :
    (env : Env) (id : ℕ) (c : Client) → IsCovered c → Covers (mc_close_device env id c)
unfolding mc_close_device
close_device-Covers env id c i = check_device_closed-Covers c i id _ (λ d e.
    if-Covers env.is_alive _ _
      (λ a.
        if-Covers (has_sessions d.sessions) _ _ (λ h. failed-Covers c i 14)
          (λ h. send-Covers c i env 0 d.connection (words (3 ∷ [])) _ (λ t same it.
            recv-Covers t it env 0 4 _ (λ code.
              if-Covers (get_word 0 code == 0) _ _
                (λ z.
                  failed-Covers (remove_device env id t) (remove_device-IsCovered env id t it) 0)
                (λ z. failed-Covers t it (get_word 0 code))))))
      (λ a. failed-Covers (remove_device env id c) (remove_device-IsCovered env id c i) 15))

remove_session-IsCovered :
    (env : Env) (h : SessionHandle) (d : Device) (s : Session) (c : Client)
    → resolve_device h.device_id c.devices ≡ some d
    → resolve_session h.session_id d.sessions ≡ some s
    → IsCovered c
    → IsCovered (remove_session env h s c)
unfolding remove_session delete_session
remove_session-IsCovered env h d s c e f i =
    at_device-IsCovered h.device_id
      (λ x. record x { sessions = without_session h.session_id x.sessions }) d c _ e refl
      (λ x. refl)
      (λ k. omega (
        arith,
        count-unregister_all env k s.buffers c.registered,
        without_session_counts k h.session_id d.sessions s f,
      ))
      (λ k. omega arith) i

pub close_session-Covers :
    (env : Env) (session : Option SessionHandle) (c : Client)
    → IsCovered c
    → Covers (mc_close_session env session c)
unfolding mc_close_session
close_session-Covers env session c i = not_null-Covers c i session _ (λ h e.
    remove_dead-Covers env h.device_id _ (
      check_device-Covers c i h.device_id _ (λ d f.
        check_session-Covers c i h.session_id d _ (λ s g.
          send-Covers c i env 0 d.connection (words (6 ∷ h.session_id ∷ [])) _ (λ t same it.
            recv-Covers t it env 0 4 _ (λ code.
              if-Covers (get_word 0 code == 0) _ _
                (λ z.
                  failed-Covers (remove_session env h s t)
                    (remove_session-IsCovered env h d s t
                      (ap (λ (x : Client). resolve_device h.device_id x.devices) same ∙ f) g it)
                    0)
                (λ z. failed-Covers t it 7)))))))

pub notify-Covers :
    (env : Env) (session : Option SessionHandle) (c : Client)
    → IsCovered c
    → Covers (mc_notify env session c)
unfolding mc_notify
notify-Covers env session c i = not_null-Covers c i session _ (λ h e.
    remove_dead-Covers env h.device_id _ (
      check_device-Covers c i h.device_id _ (λ d f.
        check_session-Covers c i h.session_id d _ (λ s g.
          send-Covers c i env 0 d.connection (words (7 ∷ h.session_id ∷ [])) _
            (λ t same it. failed-Covers t it 0)))))

pub error_code-Covers :
    (session : Option SessionHandle) (last_err : Bool) (c : Client)
    → IsCovered c
    → Covers (mc_get_session_error_code session last_err c)
unfolding mc_get_session_error_code
error_code-Covers session last_err c i = not_null-Covers c i session _ (λ h e.
    if-Covers last_err _ _
      (λ b. check_device-Covers c i h.device_id _ (λ d f.
        check_session-Covers c i h.session_id d _ (λ s g. reply-Covers c i 0 (s.last_err ∷ []))))
      (λ b. failed-Covers c i 17))

pub version-Covers :
    (env : Env) (id : ℕ) (info : Bool) (c : Client)
    → IsCovered c
    → Covers (mc_get_mobicore_version env id info c)
unfolding mc_get_mobicore_version
version-Covers env id info c i = check_device-Covers c i id _ (λ d e.
    if-Covers info _ _
      (λ b. send-Covers c i env 0 d.connection (words (11 ∷ [])) _ (λ t same it.
        recv-Covers t it env 0 4 _ (λ code.
          if-Covers (get_word 0 code == 0) _ _
            (λ z. recv-Covers t it env 1 96 _ (λ version. reply-Covers t it 0 (take 96 version)))
            (λ z. failed-Covers t it 15))))
      (λ b. failed-Covers c i 17))
