-- ===== src/Daemon/Driver/Sessions.antt =====
-- The commands on devices, sessions and notifications.
use android_hardware_samsung.Common.{
  ℕ, ◌+◌, ◌*◌, ◌%◌, Option, some, none, List, [], ◌∷◌, ◌==◌, take, drop, if◌then◌else◌,
}
use android_hardware_samsung.Daemon.NotificationQueue.{Notification}
use android_hardware_samsung.Daemon.Session.{Wsm, Session, process_queued_notifications}
use android_hardware_samsung.Daemon.Device.State.{DrvResult, Device}
use android_hardware_samsung.Daemon.Device.Sessions.{
  notify_owned, register_trustlet_connection, update_at,
}
use android_hardware_samsung.Daemon.Device.Commands as Commands
use android_hardware_samsung.Daemon.Device.Commands.{LoadData}
use android_hardware_samsung.Daemon.Device.Close.{open_device, close}
use android_hardware_samsung.Daemon.Registry.Blob.{
  RegObject, header_uuid, get_service_blob, mem_get_service_blob,
}
use android_hardware_samsung.Daemon.Driver.Wire.{read_length, overlay, get_word}
use android_hardware_samsung.Daemon.Driver.State.{
  drv, device_not_open, device_already_open, unknown_device, trustlet_not_found, kmod_error,
  nq_failed, unknown_error, Answer, session, mobicore_version, notification, Env, Driver, write,
  write_result, has_device, get_device, with_payload, with_device,
}

abbrev pub open_checked : ℕ → List ℕ → Driver → Driver
open_checked c bytes d =
    if has_device c d.device.linked
    then write_result c device_already_open d
    else if get_device (get_word 0 bytes)
    then write_result c (drv DrvResult.ok) (record d { device = (open_device c d.device).1 })
    else write_result c unknown_device d

unfoldable pub process_open_device : Env → ℕ → Driver → Driver
process_open_device env c d = with_payload c 4 (env.reads 1) d (λ bytes. open_checked c bytes d)

abbrev pub closed_device : ℕ → Driver → Option Device → Option Driver
closed_device c d none = none
closed_device c d (some t) = some (write_result c (drv DrvResult.ok) (record d { device = t }))

-- `none` is undefined behaviour (see Daemon.Device.Close).
unfoldable pub process_close_device : Env → ℕ → Driver → Option Driver
process_close_device env c d =
    if has_device c d.device.linked
    then closed_device c d (close c env.worlds d.device)
    else some (write_result c device_not_open d)

-- A UUID as a number, its first byte the lowest.
abbrev pub number_of : List ℕ → ℕ
number_of [] = 0
number_of (b ∷ bs) = b + 256 * number_of bs

-- `loadDataOpenSession`
abbrev pub load_of : Env → RegObject → Wsm → LoadData
load_of env o w = record {
  base_addr = w.phys_addr;
  offs = env.blob_address % 4096;
  len = o.len;
  tl_header = env.blob_address + o.tl_start_offset;
  uuid = number_of (header_uuid o.service);
}

abbrev pub remove_handle : ℕ → List ℕ → List ℕ
remove_handle h [] = []
remove_handle h (k ∷ ks) = if k == h then ks else k ∷ remove_handle h ks

abbrev pub answer_open : Env → DrvResult → Answer
answer_open env DrvResult.ok =
    session env.world.response.session_id env.world.address env.world.magic
answer_open env e = Answer.result (drv e)

-- From `unregisterWsmL2` of the load data on.
abbrev pub finish_open : Env → ℕ → ℕ → DrvResult → Driver → Driver
finish_open env c h r d =
    if env.unregister_ok h
    then write c (answer_open env r) (record d { shared = remove_handle h d.shared })
    else write_result c kmod_error d

abbrev pub open_registered : Env → ℕ → RegObject → Wsm → ℕ → ℕ → ℕ → Driver → Driver
open_registered env c o w handle len tci d =
    let (r, t) = Commands.open_session c (load_of env o w) handle len tci env.world d.device in
    finish_open env c w.handle r (record d { device = t; shared = w.handle ∷ d.shared })

-- The common end of `processOpenSession` and `processOpenTrustlet`.
unfoldable pub open_blob : Env → ℕ → Option RegObject → ℕ → ℕ → ℕ → Driver → Driver
open_blob env c none handle len tci d = write_result c trustlet_not_found d
open_blob env c (some o) handle len tci d =
    if o.len == 0
    then write_result c trustlet_not_found d
    else elim (env.register_wsm env.blob_address o.len) [
      | none ↦ write_result c kmod_error d
      | some w ↦ open_registered env c o w handle len tci d
    ]

-- deviceId, uuid, tci, handle, len
unfoldable pub process_open_session : Env → ℕ → Driver → Driver
process_open_session env c d = with_payload c 32 (env.reads 1) d (λ bytes. with_device c d (
    open_blob env c (get_service_blob (take 16 (drop 4 bytes)) d.disk) (get_word 6 bytes)
      (get_word 7 bytes) (get_word 5 bytes) d))

-- deviceId, spid, trustlet_len, tci, handle, len; then the trustlet.
unfoldable pub process_open_trustlet : Env → ℕ → Driver → Driver
process_open_trustlet env c d = with_payload c 24 (env.reads 1) d (λ bytes. with_device c d (
    with_payload c (get_word 2 bytes) (env.reads 2) d (λ trustlet.
      open_blob env c (mem_get_service_blob (get_word 1 bytes) trustlet d.disk) (get_word 4 bytes)
        (get_word 5 bytes) (get_word 3 bytes) d)))

unfoldable pub process_close_session : Env → ℕ → Driver → Driver
process_close_session env c d = with_payload c 4 (env.reads 1) d (λ bytes. with_device c d (
    let (r, t) = Commands.close_session c (get_word 0 bytes) env.world d.device in
    write_result c (drv r) (record d { device = t })))

-- `Server::detachConnection` and `NetlinkServer::detachConnection`
abbrev pub remove_peer : ℕ → List ℕ → List ℕ
remove_peer c [] = []
remove_peer c (x ∷ xs) = if x == c then xs else x ∷ remove_peer c xs

unfoldable pub detach : ℕ → Driver → Driver
detach c d = record d { peers = remove_peer c d.peers; detached = c ∷ d.detached }

abbrev pub write_all : List (ℕ × Notification) → Driver → Driver
write_all [] d = d
write_all ((c, n) ∷ ns) d = write_all ns (write c (notification n) d)

abbrev pub deliver_queued : ℕ → Option Session × List Session → Driver → Driver
deliver_queued c (none, ss) d = write_result c unknown_error d
deliver_queued c (some s, ss) d = write_all (process_queued_notifications s).0 (
    write_result c (drv DrvResult.ok) (record d {
      device = record (d.device) {
        sessions = update_at s.address (λ t. (process_queued_notifications t).1) ss;
      };
    }))

abbrev pub connect_detached : ℕ → List ℕ → Driver → Driver
connect_detached c bytes d =
    if get_device (get_word 0 bytes)
    then deliver_queued c
        (register_trustlet_connection c (get_word 2 bytes) (get_word 3 bytes) (get_word 1 bytes)
          d.device.sessions)
        d
    else write_result c unknown_device d

-- deviceId, sessionId, deviceSessionId, sessionMagic
unfoldable pub process_nq_connect : Env → ℕ → Driver → Driver
process_nq_connect env c d = with_payload c 16 (env.reads 1) d (λ bytes.
    if has_device c d.device.linked
    then write_result c nq_failed d
    else connect_detached c bytes (detach c d))

-- A notify fails silently.
unfoldable pub process_notify : Env → ℕ → Driver → Driver
process_notify env c d =
    if read_length (env.reads 1) == 4
    then (if has_device c d.device.linked
        then record d {
          device = (notify_owned c (get_word 0 (overlay (env.reads 1) [])) d.device).1;
        }
        else d)
    else d

-- MC_MAKE_VERSION(0, 2)
unfoldable pub process_get_version : ℕ → Driver → Driver
process_get_version c d = write c (Answer.version 2) d

abbrev pub answer_version : ℕ → DrvResult × Option ℕ × Device → Driver → Driver
answer_version c (DrvResult.ok, some v, t) d =
    write c (mobicore_version v) (record d { device = t })
answer_version c (e, v, t) d = write_result c (drv e) (record d { device = t })

unfoldable pub process_get_mobicore_version : Env → ℕ → Driver → Driver
process_get_mobicore_version env c d =
    with_device c d (answer_version c (Commands.get_mobicore_version env.world d.device) d)
