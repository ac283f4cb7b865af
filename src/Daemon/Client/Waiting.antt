-- ===== src/Daemon/Client/Waiting.antt =====
-- `mcWaitNotification` of mobicore/daemon/ClientLib/ClientLib.cpp.
use android_hardware_samsung.Common.{
  ℕ, Bool, false, Option, List, [], ◌∷◌, length, ◌==◌, if◌then◌else◌,
}
use android_hardware_samsung.Daemon.Driver.Wire.{Read, received, socket_error, get_word}
use android_hardware_samsung.Daemon.Client.Codes.{
  drv_ok, err_notification, err_timeout, info_notification,
}
use android_hardware_samsung.Daemon.Client.State.{
  Session, Device, Client, Env, Reply, failed, at_device, at_session, remove_device,
}
use android_hardware_samsung.Daemon.Client.Wire.{
  SessionHandle, not_null, check_device, check_session,
}

-- `setErrorInfo` through the pointer that was resolved.
abbrev pub set_error_info : SessionHandle → ℕ → Client → Client
set_error_info h err c = record c {
  devices =
      at_device h.device_id
        (λ (d : Device). record d {
          sessions =
              at_session h.session_id (λ (s : Session). record s { last_err = err }) d.sessions;
        })
        c.devices;
}

-- A `notification_t`, sessionId and payload, has been read whole.
abbrev pub is_whole : Read → Bool
is_whole socket_error = false
is_whole (received bytes) = length bytes == 8

abbrev pub payload : Read → ℕ
payload socket_error = 0
payload (received bytes) = get_word 1 bytes

-- The rounds of the loop after the first, over what the connection brings until it has no more
-- data; the payload is not 0 when the session's end point died.
unfoldable pub drain : SessionHandle → List Read → Client → Reply
drain h [] c = failed drv_ok c
drain h (r ∷ rs) c =
    let rest = drain h rs c in
    if is_whole r
    then (if payload r == 0
        then rest
        else failed info_notification (set_error_info h (payload r) c))
    else failed drv_ok c

-- Nothing arrives before the timeout when the list is empty; a read of no bytes is the end of the
-- connection.
unfoldable pub first_round : Env → SessionHandle → List Read → Client → Reply
first_round env h [] c = failed err_timeout c
first_round env h (received [] ∷ rs) c = failed err_notification (remove_device env h.device_id c)
first_round env h (r ∷ rs) c = if is_whole r then drain h (r ∷ rs) c else failed err_notification c

-- What the notification connection of the session brings.
unfoldable pub mc_wait_notification : Env → Option SessionHandle → List Read → Client → Reply
mc_wait_notification env session rs c = not_null session c (λ h.
    check_device h.device_id c (λ d. check_session h.session_id d c (λ s. first_round env h rs c)))
