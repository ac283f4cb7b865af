-- ===== src/Daemon/Device/Sessions.antt =====
-- The session list of mobicore/daemon/Daemon/Device/MobiCoreDevice.cpp, and its notifications
-- (with `TrustZoneDevice::notify` and `handleIrq` of Platforms/Generic/TrustZoneDevice.cpp).
use android_hardware_samsung.Common.{
  ℕ, zero, suc, Bool, ◌&&◌, Option, some, none, List, [], ◌∷◌, ◌++◌, ◌==◌, if◌then◌else◌,
}
use android_hardware_samsung.Common.Int.{pos}
use android_hardware_samsung.Daemon.NotificationQueue.{
  Notification, put_notification, get_notification,
}
use android_hardware_samsung.Daemon.Session.{Session, queue_notification, clean_session_buffers}
use android_hardware_samsung.Daemon.Device.State.{
  DrvResult, Call, Device, call, unlock_wsm, nsiq, write_notification, signal_mcp, wake_scheduler,
}

-- `getTrustletSession`: the first session with the id.
unfoldable pub get_trustlet_session : ℕ → List Session → Option Session
get_trustlet_session id [] = none
get_trustlet_session id (s ∷ ss) = if s.session_id == id then some s else get_trustlet_session id ss

-- The calls of `unlockWsmL2` for the handles, in order, onto the calls before.
abbrev pub unlock_all : List ℕ → List Call → List Call
unlock_all [] calls = calls
unlock_all (h ∷ hs) calls = unlock_all hs (unlock_wsm h ∷ calls)

abbrev pub handles_of : Option (List ℕ) → List ℕ
handles_of none = []
handles_of (some hs) = hs

-- `removeTrustletSession`: the first session with the id is cleaned and erased.
unfoldable pub remove_trustlet_session : ℕ → List Session → List Call → List Session × List Call
remove_trustlet_session id [] calls = ([], calls)
remove_trustlet_session id (s ∷ ss) calls =
    let (rest, calls') = remove_trustlet_session id ss calls in
    if s.session_id == id
    then (ss, unlock_all (handles_of (clean_session_buffers s)) calls)
    else (s ∷ rest, calls')

-- The session at an address is replaced by its new value.
abbrev pub update_at : ℕ → (Session → Session) → List Session → List Session
update_at address f [] = []
update_at address f (s ∷ ss) = if s.address == address then f s ∷ ss else s ∷ update_at address f ss

abbrev pub connection_of : Option Session → Notification → Device → Option ℕ × Device
connection_of none n d = (none, d)
connection_of (some s) n d = elim s.notification_connection [
  | some c ↦ (some c, d)
  | none ↦ (none, record d { sessions = update_at s.address (queue_notification n) d.sessions })
]

-- `getSessionConnection`: a session without connection keeps the notification.
unfoldable pub get_session_connection : ℕ → Notification → Device → Option ℕ × Device
get_session_connection id n d = connection_of (get_trustlet_session id d.sessions) n d

unfoldable pub queue_unknown_notification : Notification → Device → Device
queue_unknown_notification n d = record d { notifications = d.notifications ++ (n ∷ []) }

abbrev pub forward : Option ℕ × Device → Notification → Device
forward (none, d) n = queue_unknown_notification n d
forward (some c, d) n = call (write_notification c n) d

-- The body of the inner loop of `handleIrq`.
unfoldable pub handle_notification : Notification → Device → Device
handle_notification n d =
    if n.session_id == 0
    then call signal_mcp d
    else forward (get_session_connection n.session_id n d) n

-- The inner loop of `handleIrq`, with fuel: `none` means that it ran out.
unfoldable pub handle_all : ℕ → Device → Option Device
handle_all zero d = none
handle_all (suc fuel) d =
    let (n, q) = get_notification d.queues in
    elim n [
      | none ↦ some (call wake_scheduler (record d { queues = q }))
      | some m ↦ handle_all fuel (handle_notification m (record d { queues = q }))
    ]

-- `TrustZoneDevice::nsiq`, whose answer its callers here ignore, and the notification before it.
abbrev pub send : ℕ → Device → Device
send id d =
    call nsiq (record d {
      queues = put_notification (record { session_id = id; payload = pos 0 }) d.queues;
    })

abbrev pub send_known : Option Session → ℕ → Device → Device
send_known none id d = d
send_known (some s) id d = send id d

-- `TrustZoneDevice::notify`; SID_MCP is 0.
unfoldable pub notify : ℕ → Device → Device
notify id d = if id == 0 then send id d else send_known (get_trustlet_session id d.sessions) id d

-- The session with the id, if the connection owns it.
abbrev pub owned : Option Session → ℕ → Option Session
owned none c = none
owned (some s) c = if s.device_connection == c then some s else none

-- `notify(connection, sessionId)`
unfoldable pub notify_owned : ℕ → ℕ → Device → DrvResult × Device
notify_owned c id d = elim (owned (get_trustlet_session id d.sessions) c) [
  | none ↦ (DrvResult.unknown_session, d)
  | some s ↦ (DrvResult.ok, notify id d)
]

abbrev pub matches : Session → ℕ → ℕ → ℕ → Bool
matches s address magic id =
    s.address == address && (s.session_magic == magic && s.session_id == id)

-- `registerTrustletConnection`: the session that pointer, magic number and id all name.
unfoldable pub register_trustlet_connection :
    ℕ → ℕ → ℕ → ℕ → List Session → Option Session × List Session
register_trustlet_connection c address magic id [] = (none, [])
register_trustlet_connection c address magic id (s ∷ ss) =
    let (found, rest) = register_trustlet_connection c address magic id ss in
    if matches s address magic id
    then (
      some (record s { notification_connection = some c }),
      record s { notification_connection = some c } ∷ ss,
    )
    else (found, s ∷ rest)
