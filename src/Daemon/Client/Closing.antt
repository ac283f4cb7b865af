-- ===== src/Daemon/Client/Closing.antt =====
-- `mcCloseDevice`, `mcCloseSession`, `mcNotify`, `mcGetSessionErrorCode`,
-- `mcGetMobiCoreVersion` and `mcDriverCtrl` of mobicore/daemon/ClientLib/ClientLib.cpp.
use android_hardware_samsung.Common.{
  ℕ, Bool, true, false, Option, List, [], ◌∷◌, take, ◌==◌, if◌then◌else◌,
}
use android_hardware_samsung.Daemon.Driver.Wire.{get_word}
use android_hardware_samsung.Daemon.Client.Codes.{
  drv_ok, err_not_implemented, err_unknown_device, err_daemon_unreachable, err_null_pointer,
  err_session_pending,
}
use android_hardware_samsung.Daemon.Client.State.{
  Session, Device, Client, Env, Reply, failed, at_device, delete_session, remove_device,
  remove_dead,
}
use android_hardware_samsung.Daemon.Client.Wire.{
  words, SessionHandle, not_null, check_device, check_device_closed, check_session, send, recv,
}

abbrev pub has_sessions : List Session → Bool
has_sessions [] = false
has_sessions (s ∷ ss) = true

-- MC_DRV_CMD_CLOSE_DEVICE is 3.
unfoldable pub mc_close_device : Env → ℕ → Client → Reply
mc_close_device env id c = check_device_closed id c (λ d.
    if env.is_alive
    then (if has_sessions d.sessions
        then failed err_session_pending c
        else send env 0 d.connection (words (3 ∷ [])) c (λ t. recv env 0 4 t (λ code.
          if get_word 0 code == 0
          then failed drv_ok (remove_device env id t)
          else failed (get_word 0 code) t)))
    else failed err_daemon_unreachable (remove_device env id c))

abbrev pub without_session : ℕ → List Session → List Session
without_session id [] = []
without_session id (s ∷ ss) = if s.session_id == id then ss else s ∷ without_session id ss

-- `Device::removeSession` of a session that has been resolved.
unfoldable pub remove_session : Env → SessionHandle → Session → Client → Client
remove_session env h s c = delete_session env s (record c {
  devices =
      at_device h.device_id
        (λ (d : Device). record d { sessions = without_session h.session_id d.sessions }) c.devices;
})

-- MC_DRV_CMD_CLOSE_SESSION is 6. The daemon's code is replaced.
abbrev pub request_close : Env → SessionHandle → Client → Reply
request_close env h c = check_device h.device_id c (λ d. check_session h.session_id d c (λ s.
    send env 0 d.connection (words (6 ∷ h.session_id ∷ [])) c (λ t. recv env 0 4 t (λ code.
      if get_word 0 code == 0
      then failed drv_ok (remove_session env h s t)
      else failed err_unknown_device t))))

unfoldable pub mc_close_session : Env → Option SessionHandle → Client → Reply
mc_close_session env session c =
    not_null session c (λ h. remove_dead env h.device_id (request_close env h c))

-- MC_DRV_CMD_NOTIFY is 7; the daemon does not answer it.
unfoldable pub mc_notify : Env → Option SessionHandle → Client → Reply
mc_notify env session c = not_null session c (λ h. remove_dead env h.device_id (
    check_device h.device_id c (λ d.
      check_session h.session_id d c
        (λ s. send env 0 d.connection (words (7 ∷ h.session_id ∷ [])) c (λ t. failed drv_ok t)))))

-- Whether `lastErr` is given.
unfoldable pub mc_get_session_error_code : Option SessionHandle → Bool → Client → Reply
mc_get_session_error_code session last_err c = not_null session c (λ h.
    if last_err
    then check_device h.device_id c (λ d.
      check_session h.session_id d c
        (λ s. record { code = drv_ok; out = s.last_err ∷ []; client = c }))
    else failed err_null_pointer c)

-- MC_DRV_CMD_GET_MOBICORE_VERSION is 11. `mcVersionInfo_t`, of 96 bytes, is written as its bytes;
-- `info` is whether it is given.
unfoldable pub mc_get_mobicore_version : Env → ℕ → Bool → Client → Reply
mc_get_mobicore_version env id info c = check_device id c (λ d.
    if info
    then send env 0 d.connection (words (11 ∷ [])) c (λ t. recv env 0 4 t (λ code.
      if get_word 0 code == 0
      then recv env 1 96 t (λ version. record { code = drv_ok; out = take 96 version; client = t })
      else failed err_daemon_unreachable t))
    else failed err_null_pointer c)

unfoldable pub mc_driver_ctrl : ℕ → List ℕ → Client → Reply
mc_driver_ctrl param bytes c = failed err_not_implemented c
